-- ===== src/Tests/Names.antt =====
-- preview.go: names.
use agentic_preview.Common.{◌≡◌, refl, ◌⊎◌, [], true}
use agentic_preview.Text.{codes}
use agentic_preview.Names.{sanitise, is_label}
use agentic_preview.Names.Sanitise.{sanitise_label}

sanitised : sanitise (codes "Checkout--API_x/") ≡ codes "checkout-api-x"
unfolding sanitise
sanitised = refl

sanitise_label_example :
    (sanitise (codes "Checkout-AB.1") ≡ []) ⊎ (is_label (sanitise (codes "Checkout-AB.1")) ≡ true)
sanitise_label_example = sanitise_label (codes "Checkout-AB.1")
