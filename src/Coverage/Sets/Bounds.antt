-- ===== src/Coverage/Sets/Bounds.antt =====
-- The hashed branch directions against the counts of the branch summary.
use mathlib.Core.Path.{subst}
use Prim.Native.String.{◌++◌ as append}
use fuzzmeter.Prelude.{
  ℕ, suc, ◌+◌, ◌≤◌, ◌≡◌, refl, ap, sym, ◌∙◌, Bool, true, false, some, String, List, [], arith,
  if◌then◌else◌, length, Bool-cases, inl, inr, leb, Option-cases,
}
use fuzzmeter.Prelude.Equality.{nat_eq}
use fuzzmeter.Prelude.Failing.{◌>>=◌, >>=-some, fold, fold-keeps, fold-related}
use fuzzmeter.Prelude.Sorting.{sorted, length-sorted}
use fuzzmeter.Json.{Value, Items, null, number, text, list, dict, Fields, get, to_list}
use fuzzmeter.Coverage.Sets.{
  Python, filenames_of, function_key, branches, add_hash, elements, function_covered, add_direction,
  add_directions, branch_key, branch_taken, count_taken, add_branch, collect_function_branch_hashes,
  collect_file_hashes, add_function, add_data, covered_hashes, count_branch, count_function,
  count_data, branch_summary_from_export,
}

-- No more hashes than covered directions were counted, and no more of these than all.
abbrev pub Within : List ℕ → ℕ × ℕ → Type 0
Within hashes counts = (length hashes ≤ counts.0) × (counts.0 ≤ counts.1)

length-add_hash : (h : ℕ) (hashes : List ℕ) → length (add_hash h hashes) ≤ suc (length hashes)
unfolding add_hash
length-add_hash h hashes = ground arith

module _ {N : Type 0} (python : Python N) where
  length-add_direction :
      (taken : Bool) (key : String) (hashes : List ℕ)
      → length (add_direction python taken key hashes) ≤ length hashes + (if taken then 1 else 0)
  unfolding add_direction
  length-add_direction true key hashes = omega (arith, length-add_hash _ hashes)
  length-add_direction false key hashes = omega arith

  count_branch-taken :
      (xs : Items N) (cs cs' : ℕ × ℕ) (taken : Bool × Bool)
      → branch_taken python (to_list xs) ≡ some taken
      → count_branch python (list xs) cs ≡ some cs'
      → count_taken python taken cs ≡ cs'
  unfolding count_branch
  count_branch-taken xs cs cs' taken e k = elim (Bool-cases (leb 6 (length (to_list xs)))) [
    | inl long ↦
        let h : some (count_taken python taken cs) ≡ some cs' =
          sym (rw (long, e, count_branch) refl) ∙ k in
        cc
    | inr short ↦ absurd (ground arith)
  ]

  directions-Within :
      (key : String) (taken : Bool × Bool) (hs : List ℕ) (cs : ℕ × ℕ)
      → Within hs cs
      → Within (add_directions python key taken hs) (count_taken python taken cs)
  directions-Within key (a, b) hs cs r = (
    omega (
      arith,
      length-add_direction a (append key ":true") hs,
      length-add_direction b (append key ":false") (add_direction python a (append key ":true") hs),
      r.0,
    ),
    ground arith,
  )

  branch-Within :
      (key : String) (filenames : List (Value N)) (b : Value N) (hs hs' : List ℕ) (cs cs' : ℕ × ℕ)
      → Within hs cs
      → add_branch python key filenames b hs ≡ some hs'
      → count_branch python b cs ≡ some cs'
      → Within hs' cs'
  unfolding add_branch
  branch-Within key filenames (list xs) hs hs' cs cs' r h k =
      let (branch, hk, h') = >>=-some (branch_key python key filenames (to_list xs)) _ h in
      let (taken, ht, done) = >>=-some (branch_taken python (to_list xs)) _ h' in
      let same : add_directions python branch taken hs ≡ hs' = cc in
      subst (λ hs. Within hs cs') same
        (subst (Within (add_directions python branch taken hs))
          (count_branch-taken xs cs cs' taken ht k) (directions-Within branch taken hs cs r))
  branch-Within key filenames null hs hs' cs cs' r h k = cc
  branch-Within key filenames (number n) hs hs' cs cs' r h k = cc
  branch-Within key filenames (text s) hs hs' cs cs' r h k = cc
  branch-Within key filenames (dict fs) hs hs' cs cs' r h k = cc

  -- A counted branch alone adds no hash.
  count_branch-Within :
      (hs : List ℕ) (b : Value N) (cs cs' : ℕ × ℕ)
      → Within hs cs
      → count_branch python b cs ≡ some cs'
      → Within hs cs'
  unfolding count_branch
  count_branch-Within hs (list xs) cs cs' r k =
      elim (Option-cases (branch_taken python (to_list xs))) [
        | inl bad ↦ absurd (ground (arith, bad))
        | inr e ↦ subst (Within hs) (count_branch-taken xs cs cs' e.0 e.1 k) (more e.0)
      ]
    where
      more : (taken : Bool × Bool) → Within hs (count_taken python taken cs)
      more (a, b) = (ground arith, ground arith)
  count_branch-Within hs null cs cs' r k = cc
  count_branch-Within hs (number n) cs cs' r k = cc
  count_branch-Within hs (text s) cs cs' r k = cc
  count_branch-Within hs (dict fs) cs cs' r k = cc

  collect-Within :
      (fs : Fields N) (found : List (Value N)) (hs hs' : List ℕ) (cs cs' : ℕ × ℕ)
      → Within hs cs
      → elements python (get "branches" fs) ≡ some found
      → collect_function_branch_hashes python fs hs ≡ some hs'
      → fold (count_branch python) found cs ≡ some cs'
      → Within hs' cs'
  unfolding collect_function_branch_hashes
  collect-Within fs found hs hs' cs cs' r e h k =
      let (key, hk, h₁) = >>=-some (function_key python fs) _ h in
      let (names, hn, h₂) = >>=-some (filenames_of python fs) _ h₁ in
      let adds : fold (add_branch python key names) found hs ≡ some hs' =
        sym (ap (λ o. o >>= (λ found. fold (add_branch python key names) found hs)) e) ∙ h₂ in
      fold-related Within (add_branch python key names) (count_branch python)
        (λ b s s' t t' r h k. branch-Within key names b s s' t t' r h k) found hs hs' cs cs' r adds
        k

  function-Within :
      (f : Value N) (hs hs' : List ℕ) (cs cs' : ℕ × ℕ)
      → Within hs cs
      → add_function python true f hs ≡ some hs'
      → count_function python f cs ≡ some cs'
      → Within hs' cs'
  unfolding add_function count_function
  function-Within (dict fs) hs hs' cs cs' r h k =
      let (covered, hc, h₁) = >>=-some (function_covered python (dict fs)) _ h in
      let (found, e, counts) = >>=-some (elements python (get "branches" fs)) _ k in
      elim (Bool-cases covered) [
        | inl yes_covered ↦
            collect-Within fs found hs hs' cs cs' r e (ground (arith, yes_covered)) counts
        | inr uncovered ↦
            let same : hs ≡ hs' = ground (arith, uncovered) in
            subst (λ hs. Within hs cs') same
              (fold-keeps (Within hs) (count_branch python)
                (λ b cs cs' r k. count_branch-Within hs b cs cs' r k) found cs cs' r counts)
      ]
  function-Within null hs hs' cs cs' r h k = cc
  function-Within (number n) hs hs' cs cs' r h k = cc
  function-Within (text s) hs hs' cs cs' r h k = cc
  function-Within (list xs) hs hs' cs cs' r h k = cc

  -- The files of an export hold no branches.
  files-same :
      (f : Value N) (hs hs' : List ℕ)
      → collect_file_hashes python branches f hs ≡ some hs'
      → hs ≡ hs'
  unfolding collect_file_hashes
  files-same (dict fs) hs hs' h = ground arith
  files-same null hs hs' h = cc
  files-same (number n) hs hs' h = cc
  files-same (text s) hs hs' h = cc
  files-same (list xs) hs hs' h = cc

  data-Within :
      (item : Value N) (hs hs' : List ℕ) (cs cs' : ℕ × ℕ)
      → Within hs cs
      → add_data python branches item hs ≡ some hs'
      → count_data python item cs ≡ some cs'
      → Within hs' cs'
  unfolding add_data count_data
  data-Within (dict fs) hs hs' cs cs' r h k =
      let (files, hf, h₁) = >>=-some (elements python (get "files" fs)) _ h in
      let (kept, hk, h₂) = >>=-some (fold (collect_file_hashes python branches) files hs) _ h₁ in
      let (found, e, adds) = >>=-some (elements python (get "functions" fs)) _ h₂ in
      let counts : fold (count_function python) found cs ≡ some cs' =
        sym (ap (λ o. o >>= (λ found. fold (count_function python) found cs)) e) ∙ k in
      let still : Within kept cs =
        fold-keeps (λ s. Within s cs) (collect_file_hashes python branches)
          (λ f s t r h. subst (λ s. Within s cs) (files-same f s t h) r) files hs kept r hk in
      fold-related Within (add_function python true) (count_function python)
        (λ f s s' t t' r h k. function-Within f s s' t t' r h k) found kept hs' cs cs' still adds
        counts
  data-Within null hs hs' cs cs' r h k = cc
  data-Within (number n) hs hs' cs cs' r h k = cc
  data-Within (text s) hs hs' cs cs' r h k = cc
  data-Within (list xs) hs hs' cs cs' r h k = cc

  -- Of an export that gives both, there are no more hashed branch directions than
  -- `branch_summary_from_export` counts as covered, and no more of these than it counts in total.
  pub covered_hashes-Within :
      (export_obj : Fields N) (hs : List ℕ) (cs : ℕ × ℕ)
      → covered_hashes python export_obj branches ≡ some hs
      → branch_summary_from_export python export_obj ≡ some cs
      → Within hs cs
  unfolding covered_hashes branch_summary_from_export
  covered_hashes-Within export_obj hs cs h k =
      let (items, e, h₁) = >>=-some (elements python (get "data" export_obj)) _ h in
      let (found, adds, h₂) = >>=-some (fold (add_data python branches) items []) _ h₁ in
      let counts : fold (count_data python) items (0, 0) ≡ some cs =
        sym (ap (λ o. o >>= (λ items. fold (count_data python) items (0, 0))) e) ∙ k in
      let within =
        fold-related Within (add_data python branches) (count_data python)
          (λ f s s' t t' r h k. data-Within f s s' t t' r h k) items [] found (0, 0) cs
          (omega arith, omega arith) adds counts in
      let same : sorted (λ (h : ℕ). h) found ≡ hs = cc in
      subst (λ hs. Within hs cs) same (rw (length-sorted (λ (h : ℕ). h) found) within.0, within.1)
