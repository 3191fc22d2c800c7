-- ===== src/Handle/Markers.antt =====
-- The markers and regions of a handle, `ambix_add_marker` to `ambix_delete_regions` of
-- libambix/src/libambix.c, against two plain lists.
use libambix.Base.{
  ℕ, zero, suc, ◌+◌, ◌^◌, ◌<◌, ◌≤◌, ◌≡◌, refl, ap, sym, subst, ◌∙◌, true, false, ltb, if◌then◌else◌,
  Option, none, some, List, [], ◌∷◌, ◌++◌, get_elem?, length, length-append, arith, Bool-cases, inl,
  inr, ◌⊎◌,
}
use libambix.Words.{u32}
use libambix.Handle.{
  Ambix, success, Marker, Region, appended, get_marker, get_region, add_marker, add_region,
  delete_markers, delete_regions,
}

-- The array that a count and a pointer stand for.
abbrev pub contents {ℓ} : {A : Type ℓ} → ℕ → Option (List A) → List A
contents zero o = []
contents (suc n) none = []
contents (suc n) (some xs) = xs

-- The count is the array's length.
abbrev pub IsStored {ℓ} : {A : Type ℓ} → ℕ → Option (List A) → Type 0
IsStored n o = n ≡ length (contents n o)

appended-contents :
    {A : Type 0} (n : ℕ) (o : Option (List A)) (x : A)
    → IsStored n o
    → appended n o x ≡ some (contents n o ++ x ∷ [])
unfolding appended
appended-contents zero o x h = refl
appended-contents (suc n) none x h = absurd (omega (arith, h))
appended-contents (suc n) (some xs) x h = refl

contents-u32 :
    {A : Type 0} (n : ℕ) (xs : List A) (x : A)
    → n + 1 < 2 ^ 32
    → contents (u32 (n + 1)) (some (xs ++ x ∷ [])) ≡ xs ++ x ∷ []
contents-u32 n xs x lt =
    ap (λ k. contents k (some (xs ++ x ∷ []))) {x = u32 (n + 1)} {y = suc n} (omega arith)

get_elem?-ge : {A : Type 0} (xs : List A) (id : ℕ) → length xs ≤ id → get_elem? xs id ≡ none
get_elem?-ge [] id h = refl
get_elem?-ge (x ∷ xs) zero h = absurd (omega arith)
get_elem?-ge (x ∷ xs) (suc id) h = get_elem?-ge xs id (omega arith)

-- Below the count, the pointer is dereferenced.
elem-contents :
    {A : Type 0} (n : ℕ) (o : Option (List A)) (id : ℕ)
    → IsStored n o
    → (if ltb id n then (elim o [ none ↦ none | some xs ↦ get_elem? xs id ]) else none)
      ≡ get_elem? (contents n o) id
elem-contents zero o id h = ground arith
elem-contents (suc n) none id h = absurd (omega (arith, h))
elem-contents (suc n) (some xs) id h = elim (Bool-cases (ltb id (suc n))) [
  | inl t ↦ ap (λ b. if b then get_elem? xs id else none) t
  | inr f ↦
      ap (λ b. if b then get_elem? xs id else none) f ∙ sym (get_elem?-ge xs id (ground arith))
]

-- Either nothing is stored, or there is an array.
pub stored-cases :
    {A : Type 0} (n : ℕ) (o : Option (List A))
    → IsStored n o
    → ((n ≡ 0) × (contents n o ≡ [])) ⊎ ((ltb 0 n ≡ true) × ((xs : List A) × (o ≡ some xs)))
stored-cases zero o h = inl (refl, refl)
stored-cases (suc n) none h = absurd (omega (arith, h))
stored-cases (suc n) (some xs) h = inr (ground arith, (xs, refl))

-- The calls that change the arrays.
pub data Edit : Type 0 where
  marker_added : Marker → Edit
  region_added : Region → Edit
  markers_deleted regions_deleted : Edit

-- The same call on two plain lists.
abbrev pub edit_lists : Edit → List Marker × List Region → List Marker × List Region
edit_lists (marker_added m) (ms, rs) = (ms ++ m ∷ [], rs)
edit_lists (region_added r) (ms, rs) = (ms, rs ++ r ∷ [])
edit_lists markers_deleted (ms, rs) = ([], rs)
edit_lists regions_deleted (ms, rs) = (ms, [])

edit_lists-length :
    (e : Edit) (ms : List Marker) (rs : List Region)
    → (length (edit_lists e (ms, rs)).0 ≤ suc (length ms))
      × (length (edit_lists e (ms, rs)).1 ≤ suc (length rs))
edit_lists-length (marker_added m) ms rs = (omega (arith, length-append ms (m ∷ [])), omega arith)
edit_lists-length (region_added r) ms rs = (omega arith, omega (arith, length-append rs (r ∷ [])))
edit_lists-length markers_deleted ms rs = (omega arith, omega arith)
edit_lists-length regions_deleted ms rs = (omega arith, omega arith)

abbrev pub edit_all : List Edit → List Marker × List Region → List Marker × List Region
edit_all [] ls = ls
edit_all (e ∷ es) ls = edit_all es (edit_lists e ls)

module _ {F B : Type 0} where
  -- The markers and the regions that the handle holds.
  abbrev pub marker_list : Ambix F B → List Marker
  marker_list a = contents a.num_markers a.markers

  abbrev pub region_list : Ambix F B → List Region
  region_list a = contents a.num_regions a.regions

  -- Both counts are the lengths of their arrays.
  abbrev pub IsValid : Ambix F B → Type 0
  IsValid a = IsStored a.num_markers a.markers × IsStored a.num_regions a.regions

  add_marker-open :
      (a : Ambix F B) (m : Marker)
      → IsValid a
      → a.started_writing ≡ false
      → add_marker a (some m) ≡ (
        record a {
          num_markers = u32 (a.num_markers + 1);
          markers = some (marker_list a ++ m ∷ []);
          pending_headers = true;
        },
        success,
      )
  unfolding add_marker
  add_marker-open a m (h, _) idle = simp (idle, appended-contents a.num_markers a.markers m h) refl

  add_region-open :
      (a : Ambix F B) (r : Region)
      → IsValid a
      → a.started_writing ≡ false
      → add_region a (some r) ≡ (
        record a {
          num_regions = u32 (a.num_regions + 1);
          regions = some (region_list a ++ r ∷ []);
          pending_headers = true;
        },
        success,
      )
  unfolding add_region
  add_region-open a r (_, h) idle = simp (idle, appended-contents a.num_regions a.regions r h) refl

  -- If the counts of a handle are its arrays' lengths, the marker at an index is the list's entry there,
  -- and NULL past its end.
  pub get_marker-marker_list :
      (a : Ambix F B) (id : ℕ) → IsValid a → get_marker a id ≡ get_elem? (marker_list a) id
  unfolding get_marker
  get_marker-marker_list a id (h, _) = elem-contents a.num_markers a.markers id h

  -- The same of the regions.
  pub get_region-region_list :
      (a : Ambix F B) (id : ℕ) → IsValid a → get_region a id ≡ get_elem? (region_list a) id
  unfolding get_region
  get_region-region_list a id (_, h) = elem-contents a.num_regions a.regions id h

  -- The handle has not started to write, its arrays are valid and hold the two lists.
  abbrev pub Holds : Ambix F B → List Marker × List Region → Type 0
  Holds a ls =
      (a.started_writing ≡ false) × IsValid a × (marker_list a ≡ ls.0) × (region_list a ≡ ls.1)

  add_marker-Holds :
      (a : Ambix F B) (m : Marker)
      → IsValid a
      → a.started_writing ≡ false
      → length (marker_list a) + 1 < 2 ^ 32
      → Holds (add_marker a (some m)).0 (marker_list a ++ m ∷ [], region_list a)
  add_marker-Holds a m (h, k) idle lt =
      rw
        (
          add_marker-open a m (h, k) idle,
          contents-u32 a.num_markers (marker_list a) m (omega (arith, h, lt)),
        )
        (idle, (omega (arith, h, lt, length-append (marker_list a) (m ∷ [])), k), refl, refl)

  add_region-Holds :
      (a : Ambix F B) (r : Region)
      → IsValid a
      → a.started_writing ≡ false
      → length (region_list a) + 1 < 2 ^ 32
      → Holds (add_region a (some r)).0 (marker_list a, region_list a ++ r ∷ [])
  add_region-Holds a r (k, h) idle lt =
      rw
        (
          add_region-open a r (k, h) idle,
          contents-u32 a.num_regions (region_list a) r (omega (arith, h, lt)),
        )
        (idle, (k, omega (arith, h, lt, length-append (region_list a) (r ∷ []))), refl, refl)

  delete_markers-Holds :
      (a : Ambix F B)
      → IsValid a
      → a.started_writing ≡ false
      → Holds (delete_markers a).0 ([], region_list a)
  unfolding delete_markers
  delete_markers-Holds a (h, k) idle = elim (stored-cases a.num_markers a.markers h) [
    | inl (z, _) ↦ simp z (idle, (refl, k), refl, refl)
    | inr (t, (ms, e)) ↦ simp (t, e) (idle, (refl, k), refl, refl)
  ]

  delete_regions-Holds :
      (a : Ambix F B)
      → IsValid a
      → a.started_writing ≡ false
      → Holds (delete_regions a).0 (marker_list a, [])
  unfolding delete_regions
  delete_regions-Holds a (h, k) idle = elim (stored-cases a.num_regions a.regions k) [
    | inl (z, _) ↦ simp z (idle, (h, refl), refl, refl)
    | inr (t, (rs, e)) ↦ simp (t, e) (idle, (h, refl), refl, refl)
  ]

  abbrev pub perform : Edit → Ambix F B → Ambix F B
  perform (marker_added m) a = (add_marker a (some m)).0
  perform (region_added r) a = (add_region a (some r)).0
  perform markers_deleted a = (delete_markers a).0
  perform regions_deleted a = (delete_regions a).0

  abbrev pub perform_all : List Edit → Ambix F B → Ambix F B
  perform_all [] a = a
  perform_all (e ∷ es) a = perform_all es (perform e a)

  perform-Holds :
      (e : Edit) (a : Ambix F B)
      → IsValid a
      → a.started_writing ≡ false
      → length (marker_list a) + 1 < 2 ^ 32
      → length (region_list a) + 1 < 2 ^ 32
      → Holds (perform e a) (edit_lists e (marker_list a, region_list a))
  perform-Holds (marker_added m) a valid idle lm lr = add_marker-Holds a m valid idle lm
  perform-Holds (region_added r) a valid idle lm lr = add_region-Holds a r valid idle lr
  perform-Holds markers_deleted a valid idle lm lr = delete_markers-Holds a valid idle
  perform-Holds regions_deleted a valid idle lm lr = delete_regions-Holds a valid idle

  -- On a handle that holds two lists and has not started to write, any sequence of the four calls, fewer
  -- than would take a count to 2 ^ 32, leaves it valid with what the same calls make of the lists.
  pub perform_all-Holds :
      (es : List Edit) (a : Ambix F B)
      → (ls : List Marker × List Region) → Holds a ls
      → length ls.0 + length es < 2 ^ 32
      → length ls.1 + length es < 2 ^ 32
      → Holds (perform_all es a) (edit_all es ls)
  perform_all-Holds [] a ls h lm lr = h
  perform_all-Holds (e ∷ es) a (ms, rs) (idle, valid, em, er) lm lr =
      let next : Holds (perform e a) (edit_lists e (marker_list a, region_list a)) =
        perform-Holds e a valid idle (omega (arith, lm, ap length em))
          (omega (arith, lr, ap length er)) in
      perform_all-Holds es (perform e a) (edit_lists e (ms, rs))
        (subst (λ ls. Holds (perform e a) (edit_lists e ls)) (λ i. (em i, er i)) next)
        (omega (arith, lm, edit_lists-length e ms rs))
        (omega (arith, lr, (edit_lists-length e ms rs).1))
