-- ===== src/Service/Router.antt =====
-- lib/workflow_service.cxx: `WorkflowService::Router`. The entries of the unordered_map, each
-- endpoint once.
pub mod Unordered
use dag_scheduler.Base.{
  ◌≡◌, ◌⊎◌, inl, inr, refl, Option-cases, str_eq_iff, String, Bool, true, false, List, [], ◌∷◌,
  Option, none, some, if◌then◌else◌, str_eq,
}
use dag_scheduler.Service.Endpoints.{Handler}

-- A handler is none for a null pointer.
pub record Router : Type 0 where
  pub router : List (String × Option Handler)

unfoldable pub find_entry : List (String × Option Handler) → String → Option (Option Handler)
find_entry [] endpoint = none
find_entry ((name, handler) ∷ rest) endpoint =
    let later = find_entry rest endpoint in if str_eq name endpoint then some handler else later

unfoldable pub register_endpoint : Router → String → Option Handler → Router × Bool
unfolding find_entry
register_endpoint r endpoint handler = elim (find_entry r.router endpoint) [
  | some old ↦ (r, false)
  | none ↦ (record { router = (endpoint, handler) ∷ r.router }, true)
]

-- `operator[]`, none if it throws.
unfoldable pub handler_at : Router → String → Option (Option Handler)
unfolding find_entry
handler_at r endpoint = find_entry r.router endpoint

-- The router that the constructor of WorkflowService makes.
unfoldable pub service_router : String → Router
unfolding register_endpoint
service_router doc_root =
    (register_endpoint (record { router = [] }) "/index.html" (some (Handler.doc_root doc_root))).0

added_entry : Router → String → Option Handler → Router
added_entry r endpoint handler = record { router = (endpoint, handler) ∷ r.router }

-- The first handler that is registered for an endpoint stays: a free endpoint gets the handler and
-- the others keep theirs, and a taken one changes nothing.
pub register_endpoint_lem :
    (r : Router) (endpoint : String) (handler : Option Handler)
    → ((handler_at r endpoint ≡ none)
        × ((r' : Router) × (register_endpoint r endpoint handler ≡ (r', true))
            × (handler_at r' endpoint ≡ some handler)
            × ((other : String)
                → str_eq endpoint other ≡ false
                → handler_at r' other ≡ handler_at r other)))
      ⊎ ((old : Option Handler) × (handler_at r endpoint ≡ some old)
          × (register_endpoint r endpoint handler ≡ (r, false)))
unfolding register_endpoint handler_at added_entry
register_endpoint_lem r endpoint handler = elim (Option-cases (find_entry r.router endpoint)) [
  | inl free ↦
      let self : handler_at (added_entry r endpoint handler) endpoint ≡ some handler =
        rw ((str_eq_iff endpoint endpoint).1 refl) refl in
      inl (
        free,
        (
          added_entry r endpoint handler,
          rw (free, register_endpoint, find_entry) refl,
          self,
          λ other h. rw h refl,
        ),
      )
  | inr (old, taken) ↦ inr (old, taken, rw (taken, register_endpoint) refl)
]
