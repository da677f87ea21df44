-- ===== src/Tests/Request.antt =====
-- preview.go: requests.
use agentic_preview.Common.{[], ◌∷◌, ◌≡◌, refl}
use agentic_preview.Common.Int.{pos}
use agentic_preview.Common.Result.{ok, err}
use agentic_preview.Text.{codes}
use agentic_preview.Request.{PreviewRequest, validate, target_refused, bad_replicas}
use agentic_preview.Request.Fence.{IsFenced, validate-IsFenced}
use agentic_preview.Tests.Samples.{checkout}

abbrev bring_your_own : PreviewRequest
bring_your_own = record {
  work_id = codes "AB-1 ";
  workload = codes "checkout";
  namespace = codes "shop";
  preview_service = codes "checkout-pr.shop.svc";
  preview_namespace = [];
  preview_port = pos 0;
  port = [];
  image = [];
  container = [];
  replicas = pos 0;
  source_service = [];
}

validated : validate bring_your_own (codes "shop" ∷ []) (codes "x-preview") ≡ ok checkout
unfolding validate
validated = refl

elsewhere :
    validate
      (record bring_your_own { preview_namespace = codes "prod" })
      (codes "shop" ∷ [])
      (codes "h")
    ≡ err target_refused
unfolding validate
elsewhere = refl

too_many :
    validate
      (record bring_your_own { preview_service = []; image = codes "r/i:t"; replicas = pos 11 })
      (codes "shop" ∷ [])
      (codes "h")
    ≡ err bad_replicas
unfolding validate
too_many = refl

validate-IsFenced_example : IsFenced (codes "shop" ∷ []) checkout
validate-IsFenced_example =
    validate-IsFenced bring_your_own (codes "shop" ∷ []) (codes "x-preview") validated
