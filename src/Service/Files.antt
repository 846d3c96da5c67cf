-- ===== src/Service/Files.antt =====
-- Which files `DocRootEndpoint::handle_request` opens, and what it sends.
use Prim.Native.String.{◌++◌ as cat}
use text.Mathlib.TextLemmas.{append_assoc, cons-append}
use dag_scheduler.Base.{
  str_eq_iff, subst, ◌≡◌, ◌⊎◌, inl, inr, refl, sym, ap, ◌∙◌, String, Bool, true, false, not, ◌&&◌,
  ◌||◌, [], ◌∷◌, ◌++◌, Bool-cases, arith, str_eq,
}
use dag_scheduler.Service.{
  log_open, send, Request, Response, ResponseStatus, Beast, Effects, is_get, is_head,
}
use dag_scheduler.Service.Responses.{
  prepare_payload, path_cat, drop_last, ends_in_slash, bad_request_handler,
}
use dag_scheduler.Service.Endpoints.{handle_request, is_rooted, has_dots, file_response}

-- The method is GET or HEAD, and the target begins with a slash and does not have two dots together.
abbrev pub IsAllowed : Request → Type 0
IsAllowed req =
    ((is_get req.method || is_head req.method) ≡ true)
    × (is_rooted req.target ≡ true)
    × (has_dots req.target ≡ false)

pub record IsAnswered (root : String) (req : Request) (e : Effects) (r : Effects × Bool)
    : Type 0 where
  pub response : Response
  pub returned : r.1 ≡ true
  pub answered : r.0.sent ≡ e.sent ++ response ∷ []
  allowed :
      (IsAllowed req × (r.0.opens ≡ e.opens ++ path_cat root req.target ∷ []))
      ⊎ ((¬ IsAllowed req) × (r.0.opens ≡ e.opens) × (response.status ≡ ResponseStatus.bad_request))

-- The two conditions of `handle_request`.
abbrev is_refused : Request → Bool
is_refused req = not (is_get req.method) && not (is_head req.method)

abbrev is_illegal : Request → Bool
is_illegal req = str_eq req.target "" || not (is_rooted req.target) || has_dots req.target

rooted_ne_empty : (t : String) → is_rooted t ≡ true → str_eq t "" ≡ false
unfolding is_rooted
rooted_ne_empty t h = elim (Bool-cases (str_eq t "")) [
  | inl y ↦ cc (h, ap is_rooted ((str_eq_iff t "").0 y))
  | inr n ↦ n
]

IsAllowed-refused : (req : Request) → is_refused req ≡ true → ¬ IsAllowed req
IsAllowed-refused req h = ground arith

IsAllowed-illegal : (req : Request) → is_illegal req ≡ true → ¬ IsAllowed req
IsAllowed-illegal req h = ground (arith, rooted_ne_empty req.target)

IsAllowed-of : (req : Request) → is_refused req ≡ false → is_illegal req ≡ false → IsAllowed req
IsAllowed-of req h k = ground arith

module _ ⦃beast : Beast⦄ (root : String) (req : Request) (e : Effects) where
  handle_refused :
      is_refused req ≡ true
      → handle_request root req e ≡ (send (bad_request_handler "Unknown HTTP-method\n" req) e, true)
  unfolding handle_request
  handle_refused h = rw (h, handle_request) refl

  handle_illegal :
      is_refused req ≡ false
      → is_illegal req ≡ true
      → handle_request root req e
        ≡ (send (bad_request_handler "Illegal request-target\n" req) e, true)
  unfolding handle_request
  handle_illegal h k = rw (h, k, handle_request) refl

  abbrev path : String
  path = path_cat root req.target

  handle_allowed :
      is_refused req ≡ false
      → is_illegal req ≡ false
      → handle_request root req e
        ≡ (send (file_response path (beast.open_file path) req) (log_open path e), true)
  unfolding handle_request
  handle_allowed h k = rw (h, k, handle_request) refl

  -- A request is answered once. A file is opened exactly if the request is allowed, and it is the
  -- one under the root that the target names.
  pub handle_request_lem : IsAnswered root req e (handle_request root req e)
  unfolding bad_request_handler prepare_payload
  handle_request_lem = elim (Bool-cases (is_refused req)) [
    | inl y ↦ subst (IsAnswered root req e) (sym (handle_refused y)) (record {
      response = bad_request_handler "Unknown HTTP-method\n" req;
      returned = refl;
      answered = refl;
      allowed = inr (IsAllowed-refused req y, refl, refl);
    })
    | inr n ↦ elim (Bool-cases (is_illegal req)) [
      | inl y ↦ subst (IsAnswered root req e) (sym (handle_illegal n y)) (record {
        response = bad_request_handler "Illegal request-target\n" req;
        returned = refl;
        answered = refl;
        allowed = inr (IsAllowed-illegal req y, refl, refl);
      })
      | inr k ↦ subst (IsAnswered root req e) (sym (handle_allowed n k)) (record {
        response = file_response path (beast.open_file path) req;
        returned = refl;
        answered = refl;
        allowed = inl (IsAllowed-of req n k, refl);
      })
    ]
  ]

drop_last_slash : (base : String) → ends_in_slash base ≡ true → base ≡ cat (drop_last base) "/"
unfolding drop_last ends_in_slash
drop_last_slash String.[] h = cc
drop_last_slash (String.◌∷◌ c String.[]) h = (str_eq_iff (String.◌∷◌ c "") "/").0 h
drop_last_slash (String.◌∷◌ c (String.◌∷◌ d s)) h =
    ap (String.◌∷◌ c) (drop_last_slash (String.◌∷◌ d s) h)
    ∙ sym (cons-append c (drop_last (String.◌∷◌ d s)) "/")

-- The path has the root in front, with one slash between the root and the rest of the target.
pub path_cat_lem :
    (base rest : String)
    → str_eq base "" ≡ false
    → ((ends_in_slash base ≡ true) × (path_cat base (cat "/" rest) ≡ cat base rest))
      ⊎ ((ends_in_slash base ≡ false) × (path_cat base (cat "/" rest) ≡ cat base (cat "/" rest)))
unfolding path_cat
path_cat_lem base rest h = elim (Bool-cases (ends_in_slash base)) [
  | inl y ↦ inl (
    y,
    rw (h, y) (sym (append_assoc (drop_last base) "/" rest))
        ∙ ap (λ b. cat b rest) (sym (drop_last_slash base y)),
  )
  | inr n ↦ inr (n, rw (h, n) refl)
]
