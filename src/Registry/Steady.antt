-- ===== src/Registry/Steady.antt =====
-- What every client of the registry relies on, and which operations keep it.
use agentic_preview.Common.{ℕ, ◌≡◌, ◌⊎◌, ap, sym, [], inr, refl, arith, none, true, is_some}
use agentic_preview.Common.Assoc.{get, delete, delete-All, put-All}
use agentic_preview.Common.Result.{ok}
use agentic_preview.Text.{Text}
use agentic_preview.Preview.{ServiceKey, service_key, Preview, key, agent_key}
use agentic_preview.Registry.{
  Registry, add, added, conflicting_mode, update_all, set_status, with_status,
}
use agentic_preview.Registry.Invariant.{
  IsRegistry, add-eq-ok, added-IsRegistry, update_all-IsRegistry, delete-IsRegistry,
  get-update_all-is_some,
}
use agentic_preview.Registry.Mode.{
  SingleMode, added-SingleMode, delete-SingleMode, update_all-SingleMode,
}
use agentic_preview.Registry.Expiry.{ScheduledLive, update_all-ScheduledLive}

-- Well formed, each workload in one mode, and no deadline on a scheduled intercept.
pub record IsSteady (r : Registry) : Type 0 where
  pub is_registry : IsRegistry r
  pub single_mode : SingleMode r
  pub scheduled_live : ScheduledLive r

pub delete-IsSteady : (r : Registry) (k : ServiceKey) → IsSteady r → IsSteady (delete k r)
delete-IsSteady r k v = record {
  is_registry = delete-IsRegistry r k v.is_registry;
  single_mode = delete-SingleMode r k v.single_mode;
  scheduled_live =
      delete-All (λ e. (e.1.schedule ≡ []) ⊎ (e.1.expires_at ≡ 0)) k r v.scheduled_live;
}

-- A preview without a deadline that conflicts with nothing.
pub add-IsSteady :
    (r : Registry) (p : Preview) (now : ℕ) {r1 : Registry}
    → IsSteady r
    → p.expires_at ≡ 0
    → conflicting_mode r p ≡ none
    → add r p now ≡ ok r1
    → IsSteady r1
add-IsSteady r p now v n c e =
    let (f, same) = add-eq-ok r p now e in
    rw (sym same) record {
      is_registry = added-IsRegistry r p now v.is_registry f;
      single_mode = added-SingleMode r p now v.is_registry v.single_mode c;
      scheduled_live =
          unfold added in
          put-All (λ x. (x.1.schedule ≡ []) ⊎ (x.1.expires_at ≡ 0)) (key p) _ r (inr n)
            v.scheduled_live;
    }

-- An update that leaves alone what the invariants read.
abbrev pub Unseen : (Preview → Preview) → Type 0
Unseen f =
    (p : Preview)
    → (key (f p) ≡ key p)
      × ((f p).name ≡ p.name)
      × ((f p).global ≡ p.global)
      × ((f p).schedule ≡ p.schedule)
      × ((f p).expires_at ≡ p.expires_at)

pub update_all-IsSteady :
    (f : Preview → Preview) (r : Registry) → Unseen f → IsSteady r → IsSteady (update_all f r)
update_all-IsSteady f r u v = record {
  is_registry = update_all-IsRegistry f (λ p. ((u p).0, (u p).1)) r v.is_registry;
  single_mode = update_all-SingleMode f (λ p. (same_agent p (u p).0, (u p).2)) r v.single_mode;
  scheduled_live = update_all-ScheduledLive f (λ p. ((u p).3, (u p).4)) r v.scheduled_live;
}
  where
    same_agent : (p : Preview) → key (f p) ≡ key p → agent_key (f p) ≡ agent_key p
    same_agent p e = rw (ap (λ k. k.workload) e, ap (λ k. k.namespace) e) refl

with_status-Unseen : (n d t : Text) → Unseen (with_status n d t)
unfolding with_status
with_status-Unseen n d t p = ground arith

pub set_status-IsSteady : (r : Registry) (n d t : Text) → IsSteady r → IsSteady (set_status r n d t)
unfolding set_status
set_status-IsSteady r n d t v = update_all-IsSteady _ r (with_status-Unseen n d t) v

-- There is an entry under the key.
abbrev pub Held : ServiceKey → Registry → Type 0
Held k r = is_some (get k r) ≡ true

pub set_status-Held :
    (k : ServiceKey) (r : Registry) (n d t : Text) → Held k r → Held k (set_status r n d t)
unfolding set_status
set_status-Held k r n d t h =
    get-update_all-is_some (with_status n d t)
      (λ p. ((with_status-Unseen n d t p).0, (with_status-Unseen n d t p).1)) k r h
