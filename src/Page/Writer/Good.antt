-- ===== src/Page/Writer/Good.antt =====
-- What holds of the mapping of PageWriter (budget/v1alpha1/page.go) between any two stores.
use apis.Prelude.{
  ℕ, suc, ◌+◌, ◌%◌, ◌^◌, ◌≤◌, ◌<◌, ◌≡◌, ◌≢◌, refl, ◌∙◌, ap, sym, true, List, [], ◌∷◌, ◌++◌, arith,
  All, take, ◌⊎◌, inl, inr,
}
use apis.Page.Snapshot.{page_header_size, page_seq_offset}
use apis.Page.Writer.{Words, Store, store, apply, recognised}
use apis.Page.Writer.Header.{recognises, recognised_lem}
use apis.Page.Writer.System.{seq_of, IsPage, body_of}
use apis.Page.Writer.Stores.{store-other, body_of-agree}

-- seq is short of the wrap, a page that Resume would not take over has seq 0, and an even seq other
-- than 0 stands over the body of a page.
pub record Good (words : Words) : Type 0 where
  pub fits : seq_of words + 1 < 2 ^ 64
  pub known : (recognised words ≡ true) ⊎ (seq_of words ≡ 0)
  pub settled : seq_of words % 2 ≡ 0 → seq_of words ≢ 0 → IsPage words

-- seq does not go down, and while it stays at an even value the body stays.
pub record Calm (a b : Words) : Type 0 where
  pub rises : seq_of a ≤ seq_of b
  pub still : seq_of a % 2 ≡ 0 → seq_of a ≡ seq_of b → body_of b ≡ body_of a

pub Calm-refl : (a : Words) → Calm a a
Calm-refl a = record { rises = omega arith; still = λ _ _. refl }

pub Calm-trans : (a b c : Words) → Calm a b → Calm b c → Calm a c
Calm-trans a b c h k =
    let low = h.rises in
    let high = k.rises in
    record {
      rises = omega arith;
      still = λ even same.
          let first : seq_of a ≡ seq_of b = omega arith in
          let second : seq_of b ≡ seq_of c = omega arith in
          k.still (omega arith) second ∙ h.still even first;
    }

-- A page stays one when the body stays.
pub IsPage-same : (a b : Words) → body_of b ≡ body_of a → IsPage a → IsPage b
IsPage-same a b e p = record {
  snapshot = p.snapshot;
  page = p.page;
  encoded = p.encoded;
  body = e ∙ p.body;
}

-- The mapping after each of the stores to come, with Finish at the end.
abbrev pub Trace : (Words → Type 0) → Words → List Store → Type 0
Trace Finish words [] = Good words × Finish words
Trace Finish words (st ∷ rest) =
    Good words × Calm words (store words st) × Trace Finish (store words st) rest

pub Trace-Good :
    (Finish : Words → Type 0) (words : Words) (stores : List Store)
    → Trace Finish words stores
    → Good words
Trace-Good Finish words [] t = t.0
Trace-Good Finish words (st ∷ rest) t = t.0

-- The test of Resume reads the words 0 and 8.
pub recognised-same : (a b : Words) → a 0 ≡ b 0 → a 8 ≡ b 8 → recognised a ≡ recognised b
recognised-same a b e f =
    recognised_lem a
    ∙ (ap (λ x. recognises x (a 8)) e ∙ (ap (λ y. recognises (b 0) y) f ∙ sym (recognised_lem b)))

-- A store after the header line keeps what Resume tests.
pub recognised-above :
    (words : Words) (st : Store)
    → page_seq_offset ≤ st.0
    → recognised (store words st) ≡ recognised words
recognised-above words st h =
    recognised-same (store words st) words (store-other words st 0 (λ e. omega arith))
      (store-other words st 8 (λ e. omega arith))

-- A store outside the body and seq.
pub Calm-outside :
    (words : Words) (st : Store)
    → st.0 < page_header_size
    → st.0 ≢ page_seq_offset
    → Calm words (store words st)
Calm-outside words st h k =
    let same : store words st page_seq_offset ≡ words page_seq_offset =
      store-other words st page_seq_offset (λ e. omega arith) in
    record {
      rises = omega arith;
      still = λ _ _.
          body_of-agree (store words st) words (λ i le. store-other words st i (λ e. omega arith));
    }

pub Good-outside :
    (words : Words) (st : Store)
    → st.0 < page_header_size
    → st.0 ≢ page_seq_offset
    → (recognised (store words st) ≡ true) ⊎ (seq_of words ≡ 0)
    → Good words
    → Good (store words st)
Good-outside words st h k known g =
    let same : store words st page_seq_offset ≡ words page_seq_offset =
      store-other words st page_seq_offset (λ e. omega arith) in
    let calm = Calm-outside words st h k in
    record {
      fits = let f = g.fits in omega arith;
      known = elim known [ inl r ↦ inl r | inr z ↦ inr (same ∙ z) ];
      settled = λ even nonzero.
          let even' : seq_of words % 2 ≡ 0 = omega arith in
          IsPage-same words (store words st) (calm.still even' (sym same))
            (g.settled even' (λ z. nonzero (same ∙ z)));
    }

-- The header stores of Resume.
pub header-Trace :
    (Finish : Words → Type 0) (stores : List Store) (words : Words)
    → All (λ (st : Store). st.0 < page_seq_offset) stores
    → ((n : ℕ) → (recognised (apply (take n stores) words) ≡ true) ⊎ (seq_of words ≡ 0))
    → Finish (apply stores words)
    → Good words
    → Trace Finish words stores
unfolding apply
header-Trace Finish [] words low known finish g = (g, finish)
header-Trace Finish (st ∷ stores) words low known finish g =
    let same : store words st page_seq_offset ≡ words page_seq_offset =
      store-other words st page_seq_offset (λ e. omega (arith, low.0)) in
    let below : st.0 < page_seq_offset = low.0 in
    (
      g,
      Calm-outside words st (omega arith) (λ e. omega arith),
      header-Trace Finish stores (store words st) low.1
          (λ n. elim (known (suc n)) [ inl r ↦ inl r | inr z ↦ inr (same ∙ z) ]) finish
          (Good-outside words st (omega arith) (λ e. omega arith) (known 1) g),
    )

-- The stores of the body, while seq is odd.
pub body-Trace :
    (Finish : Words → Type 0) (stores rest : List Store) (words : Words)
    → All (λ (st : Store). page_header_size ≤ st.0) stores
    → seq_of words % 2 ≡ 1
    → Good words
    → (Good (apply stores words) → Trace Finish (apply stores words) rest)
    → Trace Finish words (stores ++ rest)
unfolding apply
body-Trace Finish [] rest words high odd g k = k g
body-Trace Finish (st ∷ stores) rest words high odd g k =
    let above : page_header_size ≤ st.0 = high.0 in
    let same : store words st page_seq_offset ≡ words page_seq_offset =
      store-other words st page_seq_offset (λ e. omega arith) in
    let next : Good (store words st) = record {
      fits = let f = g.fits in omega arith;
      known = elim g.known [
        | inl r ↦ inl (recognised-above words st (omega arith) ∙ r)
        | inr z ↦ inr (same ∙ z)
      ];
      settled = λ even nonzero. absurd (omega arith);
    } in
    (
      g,
      record { rises = omega arith; still = λ even _. absurd (omega arith) },
      body-Trace Finish stores rest (store words st) high.1 (omega arith) next k,
    )
