-- ===== src/Values/OrderedMap/Laws.antt =====
-- src/value.hpp, `OrderedMap`: the index stays right, and the operations are those of a map.
use genia_cpp.Base.{
  ℕ, suc, ◌<◌, ◌≡◌, ◌≢◌, refl, ap, sym, ◌∙◌, if◌then◌else◌, none, some, [], ◌∷◌, ◌++◌, length,
  length-append, get_elem?, arith, inl, inr, Bool-cases, Option-cases,
}
use genia_cpp.Values.OrderedMap.{
  OrderedMap, find, erase, assign_at, erase_at, moved, shift_index, put, get, remove, second,
  empty_map,
}
use genia_cpp.Values.OrderedMap.Index.{
  find-erase, length-assign_at, get_elem?-assign_at, get_elem?-append_last, length-erase_at,
  get_elem?-erase_at, find-shift_index, map_moved,
}
use Prim.Native.String.{String}
use text.Mathlib.Text.{◌==◌ as str_eq}
use text.Mathlib.TextEquality.{eq_iff}

moved_inside : (r old i n k : ℕ) → r < n → old < n → i ≡ moved r old → r ≢ old → suc k ≡ n → i < k
moved_inside r old i n k hr h e other size = ground arith

moved_injective : (r a b : ℕ) → r ≢ a → r ≢ b → moved r a ≡ moved r b → a ≡ b
moved_injective r a b h k e = ground arith

module _ {ℓ} {V : Type ℓ} where
  -- Each position in the index is that of an entry, and no two keys have one position.
  pub record IsIndexed (m : OrderedMap V) : Type ℓ where
    pub inside : (k : String) (i : ℕ) → find k m.index ≡ some i → i < length m.entries
    pub distinct :
        (j k : String) (i : ℕ) → find j m.index ≡ some i → find k m.index ≡ some i → j ≡ k

  pub empty-IsIndexed : IsIndexed (empty_map {V = V})
  unfolding find
  empty-IsIndexed = record { inside = λ k i e. cc; distinct = λ j k i e f. cc }

  -- What the operations build, by what the index answers.
  put_new :
      (encoding : String) (key mapped : V) (m : OrderedMap V)
      → find encoding m.index ≡ none
      → (put encoding key mapped m).1 ≡ record {
        entries = m.entries ++ (key, mapped) ∷ [];
        index = (encoding, length m.entries) ∷ m.index;
      }
  unfolding put
  put_new encoding key mapped m e = rw (e, put) refl

  put_old :
      (encoding : String) (key mapped : V) (m : OrderedMap V) (i : ℕ)
      → find encoding m.index ≡ some i
      → (put encoding key mapped m).1 ≡ record m { entries = assign_at i (key, mapped) m.entries }
  unfolding put
  put_old encoding key mapped m i e = rw (e, put) refl

  remove_absent :
      (encoding : String) (m : OrderedMap V) → find encoding m.index ≡ none → remove encoding m ≡ m
  unfolding remove
  remove_absent encoding m e = rw (e, remove) refl

  remove_present :
      (encoding : String) (m : OrderedMap V) (i : ℕ)
      → find encoding m.index ≡ some i
      → remove encoding m
        ≡ record { entries = erase_at i m.entries; index = shift_index i (erase encoding m.index) }
  unfolding remove
  remove_present encoding m i e = rw (e, remove) refl

  get_lem :
      (j : String) (m : OrderedMap V) (i : ℕ)
      → find j m.index ≡ some i
      → get j m ≡ second (get_elem? m.entries i)
  unfolding get
  get_lem j m i e = rw (e, get) refl

  get_absent : (j : String) (m : OrderedMap V) → find j m.index ≡ none → get j m ≡ none
  unfolding get
  get_absent j m e = rw (e, get) refl

  new_inside :
      (encoding k : String) (j : ℕ) (entry : V × V) (m : OrderedMap V)
      → IsIndexed m
      → find k ((encoding, length m.entries) ∷ m.index) ≡ some j
      → j < length (m.entries ++ entry ∷ [])
  unfolding find
  new_inside encoding k j entry m v f = elim (Bool-cases (str_eq encoding k)) [
    | inl e ↦ ground (arith, length-append m.entries (entry ∷ []))
    | inr e ↦
        let g : find k m.index ≡ some j = ground arith in
        omega (arith, length-append m.entries (entry ∷ []), v.inside k j g)
  ]

  new_distinct :
      (encoding j k : String) (i : ℕ) (m : OrderedMap V)
      → IsIndexed m
      → find j ((encoding, length m.entries) ∷ m.index) ≡ some i
      → find k ((encoding, length m.entries) ∷ m.index) ≡ some i
      → j ≡ k
  unfolding find
  new_distinct encoding j k i m v f g =
      ground
        (arith, eq_iff encoding j, eq_iff encoding k, v.inside j i, v.inside k i, v.distinct j k i)

  -- `put` keeps the index right.
  pub put-IsIndexed :
      (encoding : String) (key mapped : V) (m : OrderedMap V)
      → IsIndexed m
      → IsIndexed (put encoding key mapped m).1
  put-IsIndexed encoding key mapped m v = elim (Option-cases (find encoding m.index)) [
    | inr (i, e) ↦ rw (put_old encoding key mapped m i e) (record {
      inside = λ k j f. omega (arith, v.inside k j f, length-assign_at i (key, mapped) m.entries);
      distinct = v.distinct;
    })
    | inl e ↦ rw (put_new encoding key mapped m e) (record {
      inside = λ k j f. new_inside encoding k j (key, mapped) m v f;
      distinct = λ j k i f g. new_distinct encoding j k i m v f g;
    })
  ]

  -- What is left behind a `remove` was there, at another position than the removed one.
  removed :
      (encoding j : String) (m : OrderedMap V) (r i : ℕ)
      → IsIndexed m
      → find encoding m.index ≡ some r
      → find j (shift_index r (erase encoding m.index)) ≡ some i
      → (old : ℕ) × (find j m.index ≡ some old) × (i ≡ moved r old) × (r ≢ old)
  removed encoding j m r i v e f =
      let g = sym (find-shift_index r j (erase encoding m.index)) ∙ f in
      let h = find-erase encoding j m.index in
      elim (Bool-cases (str_eq encoding j)) [
        | inl same ↦ absurd (ground arith)
        | inr other ↦ elim (Option-cases (find j m.index)) [
          | inl none_found ↦ absurd (ground arith)
          | inr (old, found) ↦ (
            old,
            found,
            ground arith,
            λ q. absurd (ground (arith, eq_iff encoding j, v.distinct encoding j r)),
          )
        ]
      ]

  -- `remove` keeps the index right.
  pub remove-IsIndexed :
      (encoding : String) (m : OrderedMap V) → IsIndexed m → IsIndexed (remove encoding m)
  remove-IsIndexed encoding m v = elim (Option-cases (find encoding m.index)) [
    | inl e ↦ rw (remove_absent encoding m e) v
    | inr (r, e) ↦ rw (remove_present encoding m r e) (record {
      inside = λ k j f.
          let (old, found, place, other) = removed encoding k m r j v e f in
          moved_inside r old j (length m.entries) _ (v.inside encoding r e) (v.inside k old found)
            place other (length-erase_at r m.entries (v.inside encoding r e));
      distinct = λ j k i f g.
          let (old, found, place, other) = removed encoding j m r i v e f in
          let (old', found', place', other') = removed encoding k m r i v e g in
          let one = moved_injective r old old' other other' (sym place ∙ place') in
          v.distinct j k old found (found' ∙ ap some (sym one));
    })
  ]

  put_old_lem :
      (encoding j : String) (key mapped : V) (m : OrderedMap V) (i : ℕ)
      → IsIndexed m
      → find encoding m.index ≡ some i
      → get j (record m { entries = assign_at i (key, mapped) m.entries })
        ≡ (if str_eq encoding j then some mapped else get j m)
  unfolding get
  put_old_lem encoding j key mapped m i v e = elim (Option-cases (find j m.index)) [
    | inl f ↦ ground (arith, eq_iff encoding j)
    | inr (k, f) ↦ ground (
      arith,
      eq_iff encoding j,
      get_elem?-assign_at i k (key, mapped) m.entries (v.inside encoding i e),
      v.distinct encoding j i,
    )
  ]

  put_new_lem :
      (encoding j : String) (key mapped : V) (m : OrderedMap V)
      → IsIndexed m
      → find encoding m.index ≡ none
      → get j (record {
        entries = m.entries ++ (key, mapped) ∷ [];
        index = (encoding, length m.entries) ∷ m.index;
      })
        ≡ (if str_eq encoding j then some mapped else get j m)
  unfolding get find
  put_new_lem encoding j key mapped m v e = elim (Bool-cases (str_eq encoding j)) [
    | inl f ↦ ground (arith, get_elem?-append_last m.entries (key, mapped) (length m.entries))
    | inr f ↦ elim (Option-cases (find j m.index)) [
      | inl g ↦ ground arith
      | inr (k, g) ↦ ground (arith, get_elem?-append_last m.entries (key, mapped) k, v.inside j k g)
    ]
  ]

  -- What `get` finds behind a `put`: the new value under its key, and else what it found before.
  pub get-put :
      (encoding j : String) (key mapped : V) (m : OrderedMap V)
      → IsIndexed m
      → get j (put encoding key mapped m).1 ≡ (if str_eq encoding j then some mapped else get j m)
  get-put encoding j key mapped m v = elim (Option-cases (find encoding m.index)) [
    | inr (i, e) ↦
        rw (put_old encoding key mapped m i e) (put_old_lem encoding j key mapped m i v e)
    | inl e ↦ rw (put_new encoding key mapped m e) (put_new_lem encoding j key mapped m v e)
  ]

  remove_lem :
      (encoding j : String) (m : OrderedMap V) (r : ℕ)
      → IsIndexed m
      → find encoding m.index ≡ some r
      → get j (record {
        entries = erase_at r m.entries;
        index = shift_index r (erase encoding m.index);
      })
        ≡ (if str_eq encoding j then none else get j m)
  remove_lem encoding j m r v e =
      let found : find j (shift_index r (erase encoding m.index))
          ≡ map_moved r (if str_eq encoding j then none else find j m.index) =
        find-shift_index r j (erase encoding m.index)
        ∙ ap (map_moved r) (find-erase encoding j m.index) in
      elim (Bool-cases (str_eq encoding j)) [
        | inl f ↦ get_absent j _ (found ∙ rw f refl) ∙ rw f refl
        | inr f ↦ elim (Option-cases (find j m.index)) [
          | inl g ↦ get_absent j _ (found ∙ rw (f, g) refl) ∙ rw f (sym (get_absent j m g))
          | inr (k, g) ↦
              get_lem j _ (moved r k) (found ∙ rw (f, g) refl)
              ∙ ap second (
                  get_elem?-erase_at r k m.entries
                    (λ q. absurd (ground (arith, eq_iff encoding j, v.distinct encoding j r))))
              ∙ rw f (sym (get_lem j m k g))
        ]
      ]

  -- What `get` finds behind a `remove`: nothing under its key, and else what it found before.
  pub get-remove :
      (encoding j : String) (m : OrderedMap V)
      → IsIndexed m
      → get j (remove encoding m) ≡ (if str_eq encoding j then none else get j m)
  get-remove encoding j m v = elim (Option-cases (find encoding m.index)) [
    | inl e ↦ rw (remove_absent encoding m e) (ground (arith, eq_iff encoding j, get_absent j m))
    | inr (r, e) ↦ rw (remove_present encoding m r e) (remove_lem encoding j m r v e)
  ]
