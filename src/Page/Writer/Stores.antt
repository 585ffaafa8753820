-- ===== src/Page/Writer/Stores.antt =====
-- What a run of the stores of PageWriter (budget/v1alpha1/page.go) leaves in the mapping.
use apis.Prelude.{
  ℕ, zero, suc, ◌+◌, ◌*◌, ◌≤◌, ◌<◌, ◌≡◌, ◌≢◌, refl, ◌∙◌, ap, fun_ext, List, [], ◌∷◌, ◌++◌, map,
  range, range_from, arith, All, Bool-cases, inl, inr, ◌==◌, ==_iff,
}
use apis.Page.Bytes.{Memory, read_le}
use apis.Page.Snapshot.{page_header_size}
use apis.Page.Writer.{Words, Store, store, apply, body_stores}
use apis.Page.Writer.System.{body_of, page_words, body_count}

pub store-other : (words : Words) (st : Store) (i : ℕ) → i ≢ st.0 → store words st i ≡ words i
unfolding store
store-other words st i h = elim (Bool-cases (i == st.0)) [
  | inl e ↦ absurd (h ((==_iff i st.0).0 e))
  | inr e ↦ rw e refl
]

pub store-here : (words : Words) (off v : ℕ) → store words (off, v) off ≡ v
unfolding store
store-here words off v = ground arith

pub apply-append :
    (xs ys : List Store) (words : Words) → apply (xs ++ ys) words ≡ apply ys (apply xs words)
unfolding apply
apply-append [] ys words = refl
apply-append (st ∷ xs) ys words = apply-append xs ys (store words st)

pub apply-other :
    (stores : List Store) (words : Words) (i : ℕ)
    → All (λ (st : Store). i ≢ st.0) stores
    → apply stores words i ≡ words i
unfolding apply
apply-other [] words i h = refl
apply-other (st ∷ stores) words i h =
    apply-other stores (store words st) i h.1 ∙ store-other words st i h.0

-- The stores of g to the body words j, j + 1, ... in order.
abbrev run_of : (ℕ → ℕ) → ℕ → ℕ → List Store
run_of g n j = map (λ k. (page_header_size + 8 * k, g k)) (range_from n j)

run_of-above :
    (g : ℕ → ℕ) (n j i : ℕ)
    → i < page_header_size + 8 * j
    → All (λ (st : Store). i ≢ st.0) (run_of g n j)
run_of-above g zero j i h = tt
run_of-above g (suc n) j i h = (λ e. omega arith, run_of-above g n (suc j) i (omega arith))

run_of-from : (g : ℕ → ℕ) (n j : ℕ) → All (λ (st : Store). page_header_size ≤ st.0) (run_of g n j)
run_of-from g zero j = tt
run_of-from g (suc n) j = (omega arith, run_of-from g n (suc j))

run_of-words :
    (g : ℕ → ℕ) (n j : ℕ) (words : Words)
    → map (λ k. apply (run_of g n j) words (page_header_size + 8 * k)) (range_from n j)
      ≡ map g (range_from n j)
unfolding apply
run_of-words g zero j words = refl
run_of-words g (suc n) j words =
    let next = store words (page_header_size + 8 * j, g j) in
    let first : apply (run_of g n (suc j)) next (page_header_size + 8 * j) ≡ g j =
      apply-other (run_of g n (suc j)) next (page_header_size + 8 * j)
        (run_of-above g n (suc j) (page_header_size + 8 * j) (omega arith))
      ∙ store-here words (page_header_size + 8 * j) (g j) in
    cc (first, run_of-words g n (suc j) next)

pub body_stores-from :
    (page : Memory) → All (λ (st : Store). page_header_size ≤ st.0) (body_stores page)
unfolding body_stores body_count
body_stores-from page = run_of-from (λ k. read_le page (page_header_size + 8 * k) 8) body_count 0

pub body_of-body_stores :
    (page : Memory) (words : Words) → body_of (apply (body_stores page) words) ≡ page_words page
unfolding body_of page_words body_stores body_count
body_of-body_stores page words =
    run_of-words (λ k. read_le page (page_header_size + 8 * k) 8) body_count 0 words

-- Bodies that agree from the header's end on are equal.
pub body_of-agree :
    (a b : Words) → ((i : ℕ) → page_header_size ≤ i → a i ≡ b i) → body_of a ≡ body_of b
unfolding body_of
body_of-agree a b h =
    ap (λ (f : ℕ → ℕ). map f (range body_count))
      (fun_ext λ k. h (page_header_size + 8 * k) (omega arith))
