-- ===== src/Auth/Binding.antt =====
-- Whom an API key authenticates.
use mathlib.Core.Option.{some-injective}
use openclaw_observatory.Prelude.{
  ◌≡◌, ◌≢◌, ◌∙◌, sym, refl, ap, String, false, Option, none, some, List, [], ◌∷◌, ◌==◌, arith,
  eq_iff, In, In-nil, In-cons, here, there, Bool-cases, Option-cases, inl, inr, ◌⊎◌, if◌then◌else◌,
}
use openclaw_observatory.Auth.{CollectorPrincipal, match_keys, as_principal, authenticate}

pair_eq : {i id k key : String} → i ≡ id → key ≡ k → ◌≡◌ {A = String × String} (id, key) (i, k)
pair_eq p q = rw (p, q) refl

-- The last binding of the key, if there is one, else what was matched before.
matched_somewhere :
    (key : String) (matched : Option String) (bindings : List (String × String)) (id : String)
    → match_keys key matched bindings ≡ some id
    → (matched ≡ some id) ⊎ In (id, key) bindings
unfolding match_keys
matched_somewhere key matched [] id h = inl h
matched_somewhere key matched ((i, k) ∷ rest) id h =
    elim (matched_somewhere key (if key == k then some i else matched) rest id h) [
      | inr m ↦ inr (there m)
      | inl e ↦ elim (Bool-cases (key == k)) [
        | inl t ↦ inr (here (pair_eq (some-injective i id (rw t at e)) ((eq_iff key k).0 t)))
        | inr f ↦ inl (ground arith)
      ]
    ]

some_ne_none : {p : CollectorPrincipal} → some p ≢ none
some_ne_none h = ground arith

some_text : {id : String} → none ≢ some id
some_text h = ground arith

key_not_empty : (key : String) → (key == "") ≡ false → key ≢ ""
key_not_empty key h e = ground (arith, eq_iff key "")

-- Only a bound key authenticates, as an identity that it is bound to and by the method `api_key`; the
-- empty key never does, even where it is bound.
pub authenticate_sound :
    (bindings : List (String × String)) (key : String) (p : CollectorPrincipal)
    → authenticate bindings (some key) ≡ some p
    → In (p.subject, key) bindings × (key ≢ "") × (p.method ≡ "api_key")
unfolding authenticate
authenticate_sound [] key p h = absurd (ground arith)
authenticate_sound (b ∷ bs) key p h = elim (Bool-cases (key == "")) [
  | inl empty ↦ absurd (ground (arith, empty))
  | inr nonempty ↦ elim (Option-cases (match_keys key none (b ∷ bs))) [
    | inl unmatched ↦ absurd (some_ne_none (sym h ∙ (rw nonempty (ap as_principal unmatched))))
    | inr (id, found) ↦
        let q = (some-injective _ p (sym (rw nonempty (ap as_principal found)) ∙ h)) in
        elim (matched_somewhere key none (b ∷ bs) id found) [
          | inl n ↦ absurd (some_text n)
          | inr m ↦ (rw (← q) m, key_not_empty key nonempty, rw (← q) refl)
        ]
  ]
]

-- Every binding of the key is to that identity.
abbrev pub BoundTo : String → String → List (String × String) → Type 0
BoundTo key id [] = Unit
BoundTo key id ((i, k) ∷ rest) = ((key == k) ≡ false ⊎ (i ≡ id)) × BoundTo key id rest

match_unique :
    (key id : String) (matched : Option String) (bindings : List (String × String))
    → BoundTo key id bindings
    → (matched ≡ some id) ⊎ In (id, key) bindings
    → match_keys key matched bindings ≡ some id
unfolding match_keys
match_unique key id matched [] bound (inl e) = e
match_unique key id matched [] bound (inr m) = absurd (In-nil m)
match_unique key id matched ((i, k) ∷ rest) (b, bound) c =
    match_unique key id (if key == k then some i else matched) rest bound
      (elim (Bool-cases (key == k)) [
        | inl t ↦ elim b [
          | inl differs ↦ absurd (ground arith)
          | inr same ↦ inl (rw (t, same) refl)
        ]
        | inr f ↦ elim c [
          | inl e ↦ inl (rw f e)
          | inr m ↦ elim (In-cons m) [
            | inl e ↦ absurd (ground (arith, f, eq_iff key k, ap (λ q. q.1) e))
            | inr n ↦ inr n
          ]
        ]
      ])

nonempty_key : (key : String) → key ≢ "" → (key == "") ≡ false
nonempty_key key ne = ground (arith, eq_iff key "")

-- A nonempty key that is bound, and to one identity only, authenticates as that identity.
pub authenticate_complete :
    (bindings : List (String × String)) (key id : String)
    → key ≢ ""
    → In (id, key) bindings
    → BoundTo key id bindings
    → authenticate bindings (some key) ≡ some (record { method = "api_key"; subject = id })
unfolding authenticate
authenticate_complete [] key id ne m bound = absurd (In-nil m)
authenticate_complete (b ∷ bs) key id ne m bound =
    rw (nonempty_key key ne) (ap as_principal (match_unique key id none (b ∷ bs) bound (inr m)))
