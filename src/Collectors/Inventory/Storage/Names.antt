-- ===== src/Collectors/Inventory/Storage/Names.antt =====
-- The logical names of storage devices.
use mathlib.Core.Path.{subst}
use openclaw_observatory.Prelude.{
  ◌≡◌, ◌≢◌, ◌↔◌, refl, sym, ap, ◌∙◌, inl, inr, ℕ, suc, ◌≤◌, String, false, ◌==◌, Option, none, some,
  List, [], ◌∷◌, In, In-nil, In-cons, arith, eq_iff, eq_refl, ◌⊎◌, Bool-cases, Option-cases,
  if◌then◌else◌,
}
use openclaw_observatory.Prelude.Dict.{Dict, lookup, insert, lookup-insert, lookup-insert_self}
use openclaw_observatory.Collectors.Inventory.Storage.{
  Entry, Name, counted, Naming, name_device, prefix_of, physical_of, name_entry, start, assign_from,
  assign_logical_names,
}

-- no ordinal is above the counter of its prefix, and no two devices have one name
record IsConsistent (s : Naming) : Type 0 where
  counted_below : (p : String) (n : Name) → lookup p s.named ≡ some n → n.1 ≤ counted n.0 s.counters
  distinct :
      (p q : String) (n : Name) → lookup p s.named ≡ some n → lookup q s.named ≡ some n → p ≡ q

-- the state after a device's first name
abbrev named_new : String → String → Naming → Naming
named_new physical prefix s =
    let n = suc (counted prefix s.counters) in
    record { counters = insert prefix n s.counters; named = insert physical (prefix, n) s.named }

device_known :
    (physical prefix : String) (s : Naming) (n : Name)
    → lookup physical s.named ≡ some n
    → name_device physical prefix s ≡ s
unfolding name_device
device_known physical prefix s n h = ground (arith, h)

device_new :
    (physical prefix : String) (s : Naming)
    → lookup physical s.named ≡ none
    → name_device physical prefix s ≡ named_new physical prefix s
unfolding name_device
device_new physical prefix s h = ground (arith, h)

counted-insert :
    (prefix other : String) (n : ℕ) (counters : Dict ℕ)
    → counted other (insert prefix n counters)
      ≡ (if prefix == other then n else counted other counters)
counted-insert prefix other n counters = ground (arith, lookup-insert prefix other n counters)

-- a name of the state after it is the new one or one from before
name_cases :
    (physical p : String) (n m : Name) (d : Dict Name)
    → lookup p (insert physical n d) ≡ some m
    → ((physical ≡ p) × (n ≡ m)) ⊎ ((physical == p ≡ false) × (lookup p d ≡ some m))
name_cases physical p n m d h = elim (Bool-cases (physical == p)) [
  | inl e ↦ inl ((eq_iff physical p).0 e, ground (arith, h, e, lookup-insert physical p n d))
  | inr f ↦ inr (f, ground (arith, h, f, lookup-insert physical p n d))
]

counted_grows :
    (prefix other : String) (counters : Dict ℕ)
    → counted other counters
      ≤ counted other (insert prefix (suc (counted prefix counters)) counters)
counted_grows prefix other counters = elim (Bool-cases (prefix == other)) [
  | inl e ↦
      rw
        (
          ← (eq_iff prefix other).0 e,
          counted-insert prefix prefix (suc (counted prefix counters)) counters,
          eq_refl prefix,
        )
        (omega arith)
  | inr f ↦
      rw (counted-insert prefix other (suc (counted prefix counters)) counters, f) (omega arith)
]

counted_new :
    (prefix : String) (n : ℕ) (counters : Dict ℕ) → counted prefix (insert prefix n counters) ≡ n
counted_new prefix n counters = rw (counted-insert prefix prefix n counters, eq_refl prefix) refl

module _ (physical prefix : String) (s : Naming) (c : IsConsistent s) where
  new_counted :
      (p : String) (m : Name)
      → lookup p (named_new physical prefix s).named ≡ some m
      → m.1 ≤ counted m.0 (named_new physical prefix s).counters
  new_counted p m h = elim (name_cases physical p _ m s.named h) [
    | inl (_, e) ↦
        rw (← e, counted_new prefix (suc (counted prefix s.counters)) s.counters) (omega arith)
    | inr (_, k) ↦
        let below = c.counted_below p m k in
        let grows = counted_grows prefix m.0 s.counters in omega (arith, below, grows)
  ]

  -- the new name is above the counter, so that no device has it
  new_free : (q : String) → lookup q s.named ≢ some (prefix, suc (counted prefix s.counters))
  new_free q h = omega (arith, c.counted_below q _ h)

  new_distinct :
      (p q : String) (m : Name)
      → lookup p (named_new physical prefix s).named ≡ some m
      → lookup q (named_new physical prefix s).named ≡ some m
      → p ≡ q
  new_distinct p q m h k = elim (name_cases physical p _ m s.named h) [
    | inl (e, n) ↦ elim (name_cases physical q _ m s.named k) [
      | inl (e', _) ↦ sym e ∙ e'
      | inr (_, k') ↦ absurd (new_free q (k' ∙ ap some (sym n)))
    ]
    | inr (_, h') ↦ elim (name_cases physical q _ m s.named k) [
      | inl (_, n) ↦ absurd (new_free p (h' ∙ ap some (sym n)))
      | inr (_, k') ↦ c.distinct p q m h' k'
    ]
  ]

  named_new-IsConsistent : IsConsistent (named_new physical prefix s)
  named_new-IsConsistent = record { counted_below = new_counted; distinct = new_distinct }

-- A naming step keeps the state consistent, keeps the names that devices have, and names its device.
record Step (physical : String) (s s' : Naming) : Type 0 where
  consistent : IsConsistent s'
  kept : (p : String) (n : Name) → lookup p s.named ≡ some n → lookup p s'.named ≡ some n
  named : (n : Name) × (lookup physical s'.named ≡ some n)

name_device-Step :
    (physical prefix : String) (s : Naming)
    → IsConsistent s
    → Step physical s (name_device physical prefix s)
name_device-Step physical prefix s c = elim (Option-cases (lookup physical s.named)) [
  | inr (n, h) ↦
      subst (Step physical s) (sym (device_known physical prefix s n h))
        (record { consistent = c; kept = λ p m k. k; named = (n, h) })
  | inl h ↦ subst (Step physical s) (sym (device_new physical prefix s h)) (record {
    consistent = named_new-IsConsistent physical prefix s c;
    kept = λ p m k. ground (
      arith,
      k,
      h,
      eq_iff physical p,
      lookup-insert physical p (prefix, suc (counted prefix s.counters)) s.named,
    );
    named = (_, lookup-insert_self physical (prefix, suc (counted prefix s.counters)) s.named);
  })
]

-- what the name of an entry is looked up to in the last state
abbrev Named : Naming → Option Name × Entry → Type 0
Named last (o, e) = (n : Name) × (o ≡ some n) × (lookup (physical_of e) last.named ≡ some n)

record Assigned (s : Naming) (r : List (Option Name × Entry) × Naming) : Type 0 where
  consistent : IsConsistent r.1
  kept : (p : String) (n : Name) → lookup p s.named ≡ some n → lookup p r.1.named ≡ some n
  named : (x : Option Name × Entry) → In x r.0 → Named r.1 x

assign_from-Assigned :
    (s : Naming) (es : List Entry) → IsConsistent s → Assigned s (assign_from s es)
unfolding assign_from name_entry
assign_from-Assigned s [] c = record {
  consistent = c;
  kept = λ p n h. h;
  named = λ x m. absurd (In-nil m);
}
assign_from-Assigned s (e ∷ es) c =
    let step = name_device-Step (physical_of e) (prefix_of e.type) s c in
    let later = assign_from-Assigned (name_entry e s) es step.consistent in
    let (n, h) = step.named in
    record {
      consistent = later.consistent;
      kept = λ p m k. later.kept p m (step.kept p m k);
      named = λ x m. elim (In-cons m) [
        | inl q ↦
            subst (Named (assign_from (name_entry e s) es).1) (sym q)
              (n, h, later.kept (physical_of e) n h)
        | inr k ↦ later.named x k
      ];
    }

start-IsConsistent : IsConsistent start
unfolding lookup
start-IsConsistent = record {
  counted_below = λ p n h. absurd (ground (arith, h));
  distinct = λ p q n h k. absurd (ground (arith, h));
}

-- Every storage entry gets a name, and two entries have the same prefix and ordinal exactly if they
-- are of the same physical device.
pub assign_logical_names_distinct :
    (es : List Entry) (x y : Option Name × Entry)
    → In x (assign_logical_names es)
    → In y (assign_logical_names es)
    → (x.0 ≢ none) × ((x.0 ≡ y.0) ↔ (physical_of x.1 ≡ physical_of y.1))
unfolding assign_logical_names
assign_logical_names_distinct es x y h k =
    let all = assign_from-Assigned start es start-IsConsistent in
    let (n, xn, xl) = all.named x h in
    let (m, yn, yl) = all.named y k in
    let last = (assign_from start es).1 in
    (
      (λ e. absurd (ground (arith, e, xn))),
      (
        (λ e.
            all.consistent.distinct (physical_of x.1) (physical_of y.1) n xl
              (yl ∙ sym yn ∙ sym e ∙ xn)),
        (λ e. xn ∙ sym xl ∙ ap (λ p. lookup p last.named) e ∙ yl ∙ sym yn),
      ),
    )
