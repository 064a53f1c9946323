-- ===== src/Coverage/Sets/Distinct.antt =====
-- A property of the hashes that adding one keeps holds of all that `_covered_hashes` collects.
use mathlib.Core.Path.{subst}
use Prim.Native.String.{◌++◌ as append}
use fuzzmeter.Prelude.{
  ℕ, ◌≡◌, refl, ◌∙◌, Bool, true, false, not, ◌||◌, Option, some, String, List, [], ◌∷◌, arith,
  Bool-cases, inl, inr,
}
use fuzzmeter.Prelude.Equality.{◌==◌, string_eq, nat_eq, elem}
use fuzzmeter.Prelude.Failing.{>>=-some, fold, fold-keeps}
use fuzzmeter.Prelude.Sorting.{sorted, IsDistinct, IsIncreasing, sorted-IsIncreasing, has_key}
use fuzzmeter.Json.{Value, null, number, text, list, dict, Fields, get, to_list}
use fuzzmeter.Coverage.Sets.{
  Python, Metric, branches, lines, functions, regions, add_hash, elements, safe_text, stable_hash,
  covered_tuple, function_covered, function_key, filenames_of, branch_key, branch_taken,
  add_direction, add_directions, add_branch, collect_function_branch_hashes, segment_parts,
  tuple_items, of_segments, filename_of, add_segment, collect_file_hashes, add_function,
  add_functions, add_data, covered_hashes,
}

module _ {N : Type 0} (python : Python N) (P : List ℕ → Type 0)
    (add : (h : ℕ) (hs : List ℕ) → P hs → P (add_hash h hs)) where
  -- A step of a loop that keeps the property.
  abbrev Keeps {ℓ} : {A : Type ℓ} → (A → List ℕ → Option (List ℕ)) → Type ℓ
  Keeps {A = A} f = (x : A) (s t : List ℕ) → P s → f x s ≡ some t → P t

  direction-Keeps :
      (taken : Bool) (key : String) (hs : List ℕ) → P hs → P (add_direction python taken key hs)
  unfolding add_direction
  direction-Keeps true key hs p = add _ hs p
  direction-Keeps false key hs p = p

  branch-Keeps :
      (key : String) (filenames : List (Value N)) → Keeps (add_branch python key filenames)
  unfolding add_branch
  branch-Keeps key filenames (list xs) hs hs' p h =
      let (name, hk, h') = >>=-some (branch_key python key filenames (to_list xs)) _ h in
      let ((a, b), ht, done) = >>=-some (branch_taken python (to_list xs)) _ h' in
      let same : add_directions python name (a, b) hs ≡ hs' = cc in
      subst P same
        (direction-Keeps b (append name ":false") _ (direction-Keeps a (append name ":true") hs p))
  branch-Keeps key filenames null hs hs' p h = cc
  branch-Keeps key filenames (number n) hs hs' p h = cc
  branch-Keeps key filenames (text s) hs hs' p h = cc
  branch-Keeps key filenames (dict fs) hs hs' p h = cc

  collect-Keeps : Keeps (collect_function_branch_hashes python)
  unfolding collect_function_branch_hashes
  collect-Keeps fs hs hs' p h =
      let (key, hk, h₁) = >>=-some (function_key python fs) _ h in
      let (names, hn, h₂) = >>=-some (filenames_of python fs) _ h₁ in
      let (found, hf, adds) = >>=-some (elements python (get "branches" fs)) _ h₂ in
      fold-keeps P (add_branch python key names) (branch-Keeps key names) found hs hs' p adds

  segment-Keeps :
      (metric : Metric) (filename : Value N) → Keeps (add_segment python metric filename)
  unfolding add_segment
  segment-Keeps metric filename segment hs hs' p h =
      let (covered, hc, h₁) = >>=-some (covered_tuple python segment 2) _ h in
      elim (Bool-cases covered) [
        | inl hit ↦
            let (parts, hp, done) =
              >>=-some (segment_parts python metric filename (tuple_items python segment))
                (λ parts. some (add_hash (stable_hash python (safe_text python parts)) hs))
                {b = hs'} (ground (arith, hit)) in
            let same : add_hash (stable_hash python (safe_text python parts)) hs ≡ hs' = cc in
            subst P same (add _ hs p)
        | inr missed ↦ let same : hs ≡ hs' = ground (arith, missed) in subst P same p
      ]

  file-Keeps : (metric : Metric) → Keeps (collect_file_hashes python metric)
  unfolding collect_file_hashes
  file-Keeps metric (dict fs) hs hs' p h =
      elim (Bool-cases (filename_of python fs == "" || not (of_segments python metric))) [
        | inl skipped ↦ let same : hs ≡ hs' = ground (arith, skipped) in subst P same p
        | inr looked ↦
            let (segments, e, adds) =
              >>=-some (elements python (get "segments" fs))
                (λ segments.
                  fold (add_segment python metric (text (filename_of python fs))) segments hs)
                {b = hs'} (ground (arith, looked)) in
            fold-keeps P (add_segment python metric (text (filename_of python fs)))
              (segment-Keeps metric (text (filename_of python fs))) segments hs hs' p adds
      ]
  file-Keeps metric null hs hs' p h = let same : hs ≡ hs' = cc in subst P same p
  file-Keeps metric (number n) hs hs' p h = let same : hs ≡ hs' = cc in subst P same p
  file-Keeps metric (text s) hs hs' p h = let same : hs ≡ hs' = cc in subst P same p
  file-Keeps metric (list xs) hs hs' p h = let same : hs ≡ hs' = cc in subst P same p

  function-Keeps : (by_branch : Bool) → Keeps (add_function python by_branch)
  unfolding add_function
  function-Keeps by_branch (dict fs) hs hs' p h =
      let (covered, hc, h₁) = >>=-some (function_covered python (dict fs)) _ h in
      elim (Bool-cases covered) [
        | inr missed ↦ let same : hs ≡ hs' = ground (arith, missed) in subst P same p
        | inl hit ↦ elim (Bool-cases by_branch) [
          | inl branch ↦ collect-Keeps fs hs hs' p (ground (arith, hit, branch))
          | inr whole ↦
              let (key, hk, done) =
                >>=-some (function_key python fs)
                  (λ key. some (add_hash (stable_hash python key) hs)) {b = hs'}
                  (ground (arith, hit, whole)) in
              let same : add_hash (stable_hash python key) hs ≡ hs' = cc in
              subst P same (add _ hs p)
        ]
      ]
  function-Keeps by_branch null hs hs' p h = cc
  function-Keeps by_branch (number n) hs hs' p h = cc
  function-Keeps by_branch (text s) hs hs' p h = cc
  function-Keeps by_branch (list xs) hs hs' p h = cc

  functions-Keeps : (metric : Metric) → Keeps (add_functions python metric)
  functions-Keeps branches v hs hs' p h =
      let (found, e, adds) = >>=-some (elements python v) _ h in
      fold-keeps P (add_function python true) (function-Keeps true) found hs hs' p adds
  functions-Keeps functions v hs hs' p h =
      let (found, e, adds) = >>=-some (elements python v) _ h in
      fold-keeps P (add_function python false) (function-Keeps false) found hs hs' p adds
  functions-Keeps lines v hs hs' p h = let same : hs ≡ hs' = cc in subst P same p
  functions-Keeps regions v hs hs' p h = let same : hs ≡ hs' = cc in subst P same p

  data-Keeps : (metric : Metric) → Keeps (add_data python metric)
  unfolding add_data
  data-Keeps metric (dict fs) hs hs' p h =
      let (files, hf, h₁) = >>=-some (elements python (get "files" fs)) _ h in
      let (kept, hk, h₂) = >>=-some (fold (collect_file_hashes python metric) files hs) _ h₁ in
      functions-Keeps metric (get "functions" fs) kept hs'
        (fold-keeps P (collect_file_hashes python metric) (file-Keeps metric) files hs kept p hk) h₂
  data-Keeps metric null hs hs' p h = let same : hs ≡ hs' = cc in subst P same p
  data-Keeps metric (number n) hs hs' p h = let same : hs ≡ hs' = cc in subst P same p
  data-Keeps metric (text s) hs hs' p h = let same : hs ≡ hs' = cc in subst P same p
  data-Keeps metric (list xs) hs hs' p h = let same : hs ≡ hs' = cc in subst P same p

module _ {N : Type 0} (python : Python N) where
  add_hash-IsDistinct :
      (h : ℕ) (hs : List ℕ)
      → IsDistinct (λ (x : ℕ). x) hs
      → IsDistinct (λ (x : ℕ). x) (add_hash h hs)
  unfolding add_hash
  add_hash-IsDistinct h hs d = elim (Bool-cases (elem h hs)) [
    | inl there ↦ rw there d
    | inr new ↦ rw new (has_key-elem h hs ∙ new, d)
  ]
    where
      has_key-elem : (h : ℕ) (hs : List ℕ) → has_key (λ (x : ℕ). x) h hs ≡ elem h hs
      has_key-elem h [] = refl
      has_key-elem h (x ∷ xs) = ground (arith, has_key-elem h xs)

  -- The hashes of a metric increase: none is listed twice.
  pub covered_hashes-IsIncreasing :
      (export_obj : Fields N) (metric : Metric) (hs : List ℕ)
      → covered_hashes python export_obj metric ≡ some hs
      → IsIncreasing (λ (h : ℕ). h) hs
  unfolding covered_hashes
  covered_hashes-IsIncreasing export_obj metric hs h =
      let (items, e, h₁) = >>=-some (elements python (get "data" export_obj)) _ h in
      let (found, adds, h₂) = >>=-some (fold (add_data python metric) items []) _ h₁ in
      let distinct =
        fold-keeps (IsDistinct (λ (x : ℕ). x)) (add_data python metric)
          (data-Keeps python (IsDistinct (λ (x : ℕ). x)) add_hash-IsDistinct metric) items [] found
          tt adds in
      let same : sorted (λ (x : ℕ). x) found ≡ hs = cc in
      subst (IsIncreasing (λ (x : ℕ). x)) same (sorted-IsIncreasing (λ (x : ℕ). x) found distinct)
