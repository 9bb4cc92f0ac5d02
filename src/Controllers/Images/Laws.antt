-- ===== src/Controllers/Images/Laws.antt =====
-- controllers/duck_controller.go: cycles and what `ResolveImage` stashes.
use wa8s.Prelude.{◌≡◌, true, is_some}
use wa8s.Reconcile.{Outcome, done}
use wa8s.Controllers.{State, Externals}
use wa8s.Controllers.Images.{Request}

module _ {K : Type 0} (x : Externals K) (q : Request) where
  abbrev Stashes : State K × Outcome → Type 0
  Stashes end = end.1 ≡ done → (is_some end.0.keychain ≡ true) × (is_some end.0.remote_image ≡ true)
