-- ===== src/Service/Router/Unordered.antt =====
-- The router as the unordered_map that it is: the lists of entries, up to what the searches find.
use mathlib.Core.Quot
use mathlib.Core.Quot.{Quot, Quot-set}
use mathlib.Core.Bool.{false≢true}
use dag_scheduler.Base.{
  ◌≡◌, ◌∙◌, refl, sym, ap, String, Bool, true, false, ◌&&◌, List, Option, none, some, Option-cases,
  Bool-cases, inl, inr, if◌then◌else◌, str_eq, str_eq_iff,
}
use dag_scheduler.Service.Endpoints.{Handler}
use dag_scheduler.Service.Router.{find_entry, register_endpoint}

abbrev pub Entries : Type 0
Entries = List (String × Option Handler)

-- Each search ends in the same handler.
abbrev pub SameEntries : Entries → Entries → Type 0
SameEntries xs ys = (name : String) → find_entry xs name ≡ find_entry ys name

abbrev pub Routes : Type 0
Routes = Quot SameEntries

-- What is found for a name after a handler was registered, where `found` was before; `here` says
-- whether it is the name of the handler.
abbrev after : Option (Option Handler) → Bool → Option Handler → Option (Option Handler)
after (some old) here handler = some old
after none true handler = some handler
after none false handler = none

abbrev registered : String → Option Handler → Entries → Entries
registered endpoint handler xs =
    (register_endpoint (record { router = xs }) endpoint handler).0.router

after_free :
    (found : Option (Option Handler)) (here : Bool) (handler : Option Handler)
    → (here ≡ true → found ≡ none)
    → (if here then some handler else found) ≡ after found here handler
after_free none true handler free = refl
after_free none false handler free = refl
after_free (some old) true handler free = cc (free refl)
after_free (some old) false handler free = refl

after_taken :
    (found : Option (Option Handler)) (here : Bool) (handler old : Option Handler)
    → (here ≡ true → found ≡ some old)
    → found ≡ after found here handler
after_taken none true handler old taken = cc (taken refl)
after_taken none false handler old taken = refl
after_taken (some other) here handler old taken = refl

find_entry-registered :
    (endpoint : String) (handler : Option Handler) (xs : Entries) (name : String)
    → find_entry (registered endpoint handler xs) name
      ≡ after (find_entry xs name) (str_eq endpoint name) handler
unfolding register_endpoint
find_entry-registered endpoint handler xs name = elim (Option-cases (find_entry xs endpoint)) [
  | inl free ↦
      rw (free, find_entry)
        (after_free (find_entry xs name) (str_eq endpoint name) handler (λ e. same e ∙ free))
  | inr (old, taken) ↦
      rw (taken, find_entry)
        (after_taken (find_entry xs name) (str_eq endpoint name) handler old (λ e. same e ∙ taken))
]
  where
    same : str_eq endpoint name ≡ true → find_entry xs name ≡ find_entry xs endpoint
    same e = ap (find_entry xs) (sym ((str_eq_iff endpoint name).0 e))

registered-respects :
    (endpoint : String) (handler : Option Handler) (xs ys : Entries)
    → SameEntries xs ys
    → SameEntries (registered endpoint handler xs) (registered endpoint handler ys)
registered-respects endpoint handler xs ys same name =
    find_entry-registered endpoint handler xs name
    ∙ ap (λ f. after f (str_eq endpoint name) handler) (same name)
    ∙ sym (find_entry-registered endpoint handler ys name)

-- `register_endpoint` on the map.
pub register : String → Option Handler → Routes → Routes
register endpoint handler =
    Quot.lift Quot-set (λ xs. Quot.mk (registered endpoint handler xs))
      (λ xs ys same. Quot.sound (registered-respects endpoint handler xs ys same))

after_comm :
    (found : Option (Option Handler)) (b c : Bool) (h k : Option Handler)
    → (b && c) ≡ false
    → after (after found b h) c k ≡ after (after found c k) b h
after_comm (some old) b c h k apart = refl
after_comm none true true h k apart = absurd (false≢true (sym apart))
after_comm none true false h k apart = refl
after_comm none false true h k apart = refl
after_comm none false false h k apart = refl

after_twice :
    (found : Option (Option Handler)) (b : Bool) (h k : Option Handler)
    → after (after found b h) b k ≡ after found b h
after_twice (some old) b h k = refl
after_twice none true h k = refl
after_twice none false h k = refl

apart : (e1 e2 name : String) → str_eq e1 e2 ≡ false → (str_eq e2 name && str_eq e1 name) ≡ false
apart e1 e2 name differ = elim (Bool-cases (str_eq e2 name)) [
  | inr other ↦ rw other refl
  | inl e ↦ elim (Bool-cases (str_eq e1 name)) [
    | inr other ↦ rw (e, other) refl
    | inl f ↦
        let one = (str_eq_iff e1 name).0 f ∙ sym ((str_eq_iff e2 name).0 e) in
        absurd (false≢true (sym differ ∙ (str_eq_iff e1 e2).1 one))
  ]
]

find_entry-registered_twice :
    (e1 e2 : String) (h1 h2 : Option Handler) (xs : Entries) (name : String)
    → find_entry (registered e1 h1 (registered e2 h2 xs)) name
      ≡ after (after (find_entry xs name) (str_eq e2 name) h2) (str_eq e1 name) h1
find_entry-registered_twice e1 e2 h1 h2 xs name =
    find_entry-registered e1 h1 (registered e2 h2 xs) name
    ∙ ap (λ f. after f (str_eq e1 name) h1) (find_entry-registered e2 h2 xs name)

-- A router as an unordered map, which forgets in what order its entries stand: `register_endpoint` is
-- a function of it, the registrations of two endpoints commute, and a second registration of an
-- endpoint changes nothing.
pub register_lem :
    (e1 e2 : String) (h1 h2 : Option Handler)
    → str_eq e1 e2 ≡ false
    → ((xs : Entries)
        → register e1 h1 (Quot.mk xs)
          ≡ Quot.mk (register_endpoint (record { router = xs }) e1 h1).0.router)
      × ((routes : Routes)
          → register e1 h1 (register e2 h2 routes) ≡ register e2 h2 (register e1 h1 routes))
      × ((routes : Routes) → register e1 h2 (register e1 h1 routes) ≡ register e1 h1 routes)
unfolding register
register_lem e1 e2 h1 h2 differ = (
  λ xs. refl,
  Quot.ind (λ r. Quot-set _ _)
      (λ xs. Quot.sound (λ name.
        find_entry-registered_twice e1 e2 h1 h2 xs name
        ∙ after_comm (find_entry xs name) (str_eq e2 name) (str_eq e1 name) h2 h1
            (apart e1 e2 name differ)
        ∙ sym (find_entry-registered_twice e2 e1 h2 h1 xs name))),
  Quot.ind (λ r. Quot-set _ _)
      (λ xs. Quot.sound (λ name.
        find_entry-registered_twice e1 e1 h2 h1 xs name
        ∙ after_twice (find_entry xs name) (str_eq e1 name) h1 h2
        ∙ sym (find_entry-registered e1 h1 xs name))),
)
