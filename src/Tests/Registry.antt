-- ===== src/Tests/Registry.antt =====
-- preview.go: the registry.
use agentic_preview.Common.{
  ◌≡◌, ◌≢◌, ◌↔◌, refl, In, All, ◌⊎◌, true, [], ◌∷◌, arith, inl, if◌then◌else◌, none, eq_text,
}
use agentic_preview.Common.Assoc.{get}
use agentic_preview.Common.Result.{ok}
use agentic_preview.Text.{codes}
use agentic_preview.Preview.{ServiceKey, Preview, key, service_key}
use agentic_preview.Registry.{
  Registry, add, touch, expired, remove_work, conflicting_mode, namespaces_of,
}
use agentic_preview.Registry.Invariant.{IsRegistry, add-IsRegistry}
use agentic_preview.Registry.Mode.{SingleMode, SameMode, add-SingleMode, conflicting_mode-none_iff}
use agentic_preview.Registry.Expiry.{expired-touch, expired_iff, PastDeadline}
use agentic_preview.Registry.Work.{remove_work_lem, EntryOf, namespaces_of_iff, NamespaceOf}
use agentic_preview.Tests.Samples.{checkout, pricing}

abbrev one_entry : Registry
one_entry = (key checkout, record checkout { raised_at = 7; expires_at = 50 }) ∷ []

one_entry-IsRegistry : IsRegistry one_entry
unfolding get
one_entry-IsRegistry = record { distinct = (refl, tt); keyed = (refl, tt); names = (tt, tt) }

abbrev two_entries : Registry
two_entries =
    (key checkout, record checkout { raised_at = 7; expires_at = 50 })
    ∷ (key pricing, record pricing { raised_at = 9 })
    ∷ []

added_two : add one_entry pricing 9 ≡ ok two_entries
unfolding add
added_two = refl

add-IsRegistry_example : IsRegistry two_entries
add-IsRegistry_example = add-IsRegistry one_entry pricing 9 one_entry-IsRegistry added_two

add-SingleMode_example : SingleMode two_entries
unfolding conflicting_mode
add-SingleMode_example =
    add-SingleMode one_entry pricing 9 one_entry-IsRegistry (tt, tt) refl added_two

expired-touch_example :
    In (codes "AB-1") (expired (touch two_entries (codes "AB-2") 90) 60)
    ↔ (In (codes "AB-1") (expired two_entries 60) × (codes "AB-1" ≢ codes "AB-2"))
expired-touch_example =
    expired-touch two_entries (codes "AB-2") 90 60 (codes "AB-1") (omega arith)
      (inl refl, (inl refl, tt))

expired_iff_example :
    In (codes "AB-1") (expired two_entries 60) ↔ PastDeadline (codes "AB-1") 60 two_entries
expired_iff_example = expired_iff two_entries 60 (codes "AB-1")

remove_work_lem_example :
    ((p : Preview)
      → In p (remove_work two_entries (codes "AB-1")).1 ↔ EntryOf (codes "AB-1") p two_entries)
    × ((k : ServiceKey)
        → get k (remove_work two_entries (codes "AB-1")).0
          ≡ (if eq_text k.work_id (codes "AB-1") then none else get k two_entries))
remove_work_lem_example = remove_work_lem two_entries (codes "AB-1")

abbrev global_checkout : Preview
global_checkout = record checkout {
  work_id = codes "nightly";
  name = codes "checkout-nightly";
  global = true;
}

conflicting_mode-none_iff_example :
    (conflicting_mode one_entry pricing ≡ none)
    ↔ All (λ e. (e.0 ≡ key pricing) ⊎ SameMode pricing e.1) one_entry
conflicting_mode-none_iff_example = conflicting_mode-none_iff one_entry pricing

namespaces_of_iff_example :
    In (codes "shop") (namespaces_of two_entries (codes "AB-1"))
    ↔ NamespaceOf (codes "AB-1") (codes "shop") two_entries
namespaces_of_iff_example = namespaces_of_iff two_entries (codes "AB-1") (codes "shop")
