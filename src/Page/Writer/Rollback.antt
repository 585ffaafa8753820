-- ===== src/Page/Writer/Rollback.antt =====
-- Every header that the page holds while Resume (budget/v1alpha1/page.go) rewrites it.
use apis.Prelude.{
  ℕ, zero, suc, ◌≤◌, ◌<◌, ◌≡◌, refl, sym, ◌∙◌, Bool, true, false, List, arith, take, ◌&&◌,
  and-eq-true, if◌then◌else◌,
}
use apis.Page.Bytes.{byte_of}
use apis.Page.Snapshot.{page_abi_minor}
use apis.Page.Layout.{page_body_size}
use apis.Page.Encode.{ok}
use apis.Page.Writer.{Words, Store, apply, PageWriter, recognised, shrinks, resume}
use apis.Page.Writer.Header.{
  magic_word, abi_word, store_list, resume_lem, magic_ok, major_ok, size_ok, recognises,
  recognised_lem, recognises-fresh, minor_of, body_size_in, minor_bits, size_bits, minor_of_lem,
  body_size_in_lem, fresh_bits, shrinks_lem,
}

-- A header of this ABI major whose bodySize is at least the body size of its abiMinor; `body_size_of`
-- gives the body size of each minor.
pub record IsValidHeader (body_size_of : ℕ → ℕ) (words : Words) : Type 0 where
  pub known : recognised words ≡ true
  pub covers : body_size_of (minor_of words) ≤ body_size_in words

-- The same of the three header words that matter.
abbrev Valid : (ℕ → ℕ) → ℕ → ℕ → ℕ → Type 0
Valid body_size_of a b c = (recognises a b ≡ true) × (body_size_of (minor_bits b) ≤ size_bits c)

of_Valid :
    (body_size_of : ℕ → ℕ) (words : Words)
    → Valid body_size_of (words 0) (words 8) (words 16)
    → IsValidHeader body_size_of words
of_Valid body_size_of words (known, covers) = record {
  known = recognised_lem words ∙ known;
  covers = rw (minor_of_lem words, body_size_in_lem words) covers;
}

to_Valid :
    (body_size_of : ℕ → ℕ) (words : Words)
    → IsValidHeader body_size_of words
    → Valid body_size_of (words 0) (words 8) (words 16)
to_Valid body_size_of words h = (
  sym (recognised_lem words) ∙ h.known,
  rw (minor_of_lem words, body_size_in_lem words) at h.covers,
)

recognises-abi : (a b : ℕ) → recognises a b ≡ true → recognises a abi_word ≡ true
unfolding byte_of
recognises-abi a b h =
    let both = and-eq-true (magic_ok a && major_ok b) (size_ok b) h in
    let magic : magic_ok a ≡ true = (and-eq-true (magic_ok a) (major_ok b) both.0).0 in rw magic

-- The header after the first n stores of the list.
abbrev after : Bool → ℕ → Words → Words
after b n words = apply (take n (store_list b)) words

module _ (body_size_of : ℕ → ℕ) (words : Words) where
  -- Validity of the five headers that a run of stores goes through.
  record Stages (grows : Bool) : Type 0 where
    old : Valid body_size_of (words 0) (words 8) (words 16)
    half :
        Valid body_size_of
          (words 0)
          (if grows then words 8 else abi_word)
          (if grows then 2152 else words 16)
    pair : Valid body_size_of (words 0) abi_word 2152
    new : Valid body_size_of magic_word abi_word 2152

  stage_shrinking : (n : ℕ) → Stages false → IsValidHeader body_size_of (after true n words)
  unfolding apply
  stage_shrinking zero s = of_Valid body_size_of _ s.old
  stage_shrinking (suc zero) s = of_Valid body_size_of _ s.old
  stage_shrinking (suc (suc zero)) s = of_Valid body_size_of _ s.old
  stage_shrinking (suc (suc (suc zero))) s = of_Valid body_size_of _ s.old
  stage_shrinking (suc (suc (suc (suc zero)))) s = of_Valid body_size_of _ s.old
  stage_shrinking (suc (suc (suc (suc (suc zero))))) s = of_Valid body_size_of _ s.old
  stage_shrinking (suc (suc (suc (suc (suc (suc zero)))))) s = of_Valid body_size_of _ s.half
  stage_shrinking (suc (suc (suc (suc (suc (suc (suc zero))))))) s = of_Valid body_size_of _ s.pair
  stage_shrinking (suc (suc (suc (suc (suc (suc (suc (suc zero)))))))) s =
      of_Valid body_size_of _ s.new
  stage_shrinking (suc (suc (suc (suc (suc (suc (suc (suc (suc n))))))))) s =
      of_Valid body_size_of _ s.new

  stage_growing : (n : ℕ) → Stages true → IsValidHeader body_size_of (after false n words)
  unfolding apply
  stage_growing zero s = of_Valid body_size_of _ s.old
  stage_growing (suc zero) s = of_Valid body_size_of _ s.old
  stage_growing (suc (suc zero)) s = of_Valid body_size_of _ s.old
  stage_growing (suc (suc (suc zero))) s = of_Valid body_size_of _ s.old
  stage_growing (suc (suc (suc (suc zero)))) s = of_Valid body_size_of _ s.old
  stage_growing (suc (suc (suc (suc (suc zero))))) s = of_Valid body_size_of _ s.old
  stage_growing (suc (suc (suc (suc (suc (suc zero)))))) s = of_Valid body_size_of _ s.half
  stage_growing (suc (suc (suc (suc (suc (suc (suc zero))))))) s = of_Valid body_size_of _ s.pair
  stage_growing (suc (suc (suc (suc (suc (suc (suc (suc zero)))))))) s =
      of_Valid body_size_of _ s.new
  stage_growing (suc (suc (suc (suc (suc (suc (suc (suc (suc n))))))))) s =
      of_Valid body_size_of _ s.new

  module _ (current : body_size_of page_abi_minor ≡ page_body_size)
      (valid : IsValidHeader body_size_of words) where
    old_parts : Valid body_size_of (words 0) (words 8) (words 16)
    old_parts = to_Valid body_size_of words valid

    new_covers : body_size_of (minor_bits abi_word) ≤ size_bits 2152
    new_covers = let (minor, size) = fresh_bits in rw (minor, size) (omega arith)

    stages_pair : Valid body_size_of (words 0) abi_word 2152
    stages_pair = (recognises-abi (words 0) (words 8) old_parts.0, new_covers)

    Stages-shrinking : page_body_size < body_size_in words → Stages false
    Stages-shrinking h = record {
      old = old_parts;
      half = (
        stages_pair.0,
        let (minor, _) = fresh_bits in rw minor (omega (arith, body_size_in_lem words)),
      );
      pair = stages_pair;
      new = (recognises-fresh, new_covers);
    }

    Stages-growing : body_size_in words ≤ page_body_size → Stages true
    Stages-growing h = record {
      old = old_parts;
      half = (
        old_parts.0,
        let (_, size) = fresh_bits in rw size (omega (arith, body_size_in_lem words, old_parts.1)),
      );
      pair = stages_pair;
      new = (recognises-fresh, new_covers);
    }

    stages : (b : Bool) → shrinks words ≡ b → (n : ℕ) → IsValidHeader body_size_of (after b n words)
    stages true e n = stage_shrinking n (Stages-shrinking (ground (arith, shrinks_lem words)))
    stages false e n =
        let known : recognised words ≡ true = valid.known in
        stage_growing n (Stages-growing (ground (arith, shrinks_lem words)))

-- Resume over a page with a valid header keeps the header valid after each of its stores, whether the
-- page's minor was older, the same or newer: bodySize never falls below the body size of abiMinor.
pub resume-IsValidHeader :
    (body_size_of : ℕ → ℕ) (words : Words) (w : PageWriter) (n : ℕ) {stores : List Store}
    {w' : PageWriter}
    → body_size_of page_abi_minor ≡ page_body_size
    → IsValidHeader body_size_of words
    → resume words w ≡ ok (stores, w')
    → IsValidHeader body_size_of (apply (take n stores) words)
resume-IsValidHeader body_size_of words w n {stores} current valid e =
    let same : store_list (shrinks words) ≡ stores = cc (resume_lem words w) in
    rw (← same) (stages body_size_of words current valid (shrinks words) refl n)

-- The header stores keep a page that Resume takes over one.
pub store_list-recognised :
    (words : Words) (b : Bool) (n : ℕ)
    → recognised words ≡ true
    → recognised (apply (take n (store_list b)) words) ≡ true
store_list-recognised words b n known = go b
  where
    parts : recognises (words 0) (words 8) ≡ true
    parts = sym (recognised_lem words) ∙ known

    abi : recognises (words 0) abi_word ≡ true
    abi = recognises-abi (words 0) (words 8) parts

    go : (b : Bool) → recognised (apply (take n (store_list b)) words) ≡ true
    go true =
        (stage_shrinking (λ _. 0) words n
          (record {
            old = (parts, omega arith);
            half = (abi, omega arith);
            pair = (abi, omega arith);
            new = (recognises-fresh, omega arith);
          })).known
    go false =
        (stage_growing (λ _. 0) words n
          (record {
            old = (parts, omega arith);
            half = (parts, omega arith);
            pair = (abi, omega arith);
            new = (recognises-fresh, omega arith);
          })).known

-- After all of them every page is one.
pub store_list-takes_over :
    (words : Words) (b : Bool) → recognised (apply (store_list b) words) ≡ true
unfolding apply
store_list-takes_over words true = recognised_lem (apply (store_list true) words) ∙ recognises-fresh
store_list-takes_over words false =
    recognised_lem (apply (store_list false) words) ∙ recognises-fresh
