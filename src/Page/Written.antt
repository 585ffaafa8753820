-- ===== src/Page/Written.antt =====
-- The bytes of one row of the page after the loop of EncodePage (budget/v1alpha1/page.go).
use native.Mathlib.Decide.{dec_lt}
use apis.Prelude.{
  ℕ, zero, suc, ◌+◌, ◌%◌, ◌^◌, ◌≤◌, ◌<◌, ◌≡◌, refl, sym, ◌∙◌, ap, true, false, List, [], ◌∷◌,
  Option, none, some, arith, all, get_elem?, get_or, length, take, str_eq,
}
use apis.Page.Bytes.{
  Memory, zeroed, put_le, put_bytes, read_le, read_le-put_le, read_le-agree, put_bytes-here,
  put_bytes-other,
}
use apis.Page.Snapshot.{PageSnapshot}
use apis.Page.Field.{PageField}
use apis.Page.Order.{IsLaidOut}
use apis.Page.Encode.{ok, >>=-eq-ok, width, put_value, answer, put_field, put_fields}
use apis.Page.Writes.{row_fits, is_word, outside, put_field-other, put_fields-other}

-- Memory m' holds what the round of row f stored, in a run from memory m.
pub record Written (s : PageSnapshot) (f : PageField) (m m' : Memory) : Type 0 where
  pub before : Memory
  pub after : Memory
  pub wrote : put_field s f before ≡ ok after
  pub untouched : (i : ℕ) → f.offset ≤ i → before i ≡ m i
  pub kept : (i : ℕ) → i < f.offset + f.size → m' i ≡ after i

IsLaidOut-outside :
    (lo : ℕ) (fs : List PageField) (i : ℕ) → IsLaidOut lo fs → i < lo → outside fs i ≡ true
IsLaidOut-outside lo [] i h lt = refl
IsLaidOut-outside lo (f ∷ fs) i h lt =
    ground (arith, IsLaidOut-outside (f.offset + f.size) fs i h.1)

IsLaidOut-le :
    (lo : ℕ) (fs : List PageField) (k : ℕ) {f : PageField}
    → IsLaidOut lo fs
    → get_elem? fs k ≡ some f
    → lo ≤ f.offset
IsLaidOut-le lo [] k laid at = cc
IsLaidOut-le lo (g ∷ fs) zero {f} laid at = let same : g.offset ≡ f.offset = cc in omega arith
IsLaidOut-le lo (g ∷ fs) (suc k) laid at =
    omega (arith, IsLaidOut-le (g.offset + g.size) fs k laid.1 at)

pub put_fields-Written :
    (s : PageSnapshot) (lo : ℕ) (fs : List PageField) (k : ℕ) (m m' : Memory) {f : PageField}
    → IsLaidOut lo fs
    → all row_fits fs ≡ true
    → put_fields s fs m ≡ ok m'
    → get_elem? fs k ≡ some f
    → Written s f m m'
unfolding put_fields
put_fields-Written s lo [] k m m' laid fits e at = cc
put_fields-Written s lo (g ∷ fs) zero m m' {f} laid fits e at =
    let (m1, here, later) = >>=-eq-ok (put_field s g m) (put_fields s fs) e in
    let same : g ≡ f = cc in
    rw (← same) (record {
      before = m;
      after = m1;
      wrote = here;
      untouched = λ i le. refl;
      kept = λ i lt.
          put_fields-other s fs m1 m' i (ground arith) later
            (IsLaidOut-outside (g.offset + g.size) fs i laid.1 lt);
    })
put_fields-Written s lo (g ∷ fs) (suc k) m m' {f} laid fits e at =
    let (m1, here, later) = >>=-eq-ok (put_field s g m) (put_fields s fs) e in
    let w = put_fields-Written s (g.offset + g.size) fs k m1 m' laid.1 (ground arith) later at in
    let after_g = IsLaidOut-le (g.offset + g.size) fs k laid.1 at in
    record {
      before = w.before;
      after = w.after;
      wrote = w.wrote;
      untouched =
          λ i le. w.untouched i le ∙ put_field-other s g m m1 i (ground arith) here (ground arith);
      kept = w.kept;
    }

-- The value of a word row, and that memory m holds it.
abbrev pub HoldsWord : PageSnapshot → PageField → Memory → Type 0
HoldsWord s f m =
    (v : ℕ) × (answer s f.get ≡ some (some v))
    × (read_le m f.offset (width f.kind) ≡ v % 256 ^ width f.kind)

put_value-HoldsWord :
    (s : PageSnapshot) (f : PageField) (o : Option (Option ℕ)) (m m' : Memory)
    → answer s f.get ≡ o
    → put_value f o m ≡ ok m'
    → HoldsWord s f m'
unfolding put_value
put_value-HoldsWord s f none m m' e h = cc
put_value-HoldsWord s f (some none) m m' e h = cc
put_value-HoldsWord s f (some (some v)) m m' e h =
    let same : put_le m f.offset (width f.kind) v ≡ m' = cc in
    (v, e, rw (← same) (read_le-put_le m f.offset (width f.kind) v))

pub put_field-word :
    (s : PageSnapshot) (f : PageField) (m : Memory)
    → is_word f ≡ true
    → put_field s f m ≡ put_value f (answer s f.get) m
unfolding put_field is_word
put_field-word s f m h =
    let not_magic : str_eq f.name "magic" ≡ false = ground arith in
    let not_name : str_eq f.name "nodeName" ≡ false = ground arith in
    let not_size : str_eq f.name "bodySize" ≡ false = ground arith in
    rw (not_magic, not_name, not_size)

pub row_fits-word : (f : PageField) → is_word f ≡ true → row_fits f ≡ true → width f.kind ≤ f.size
unfolding row_fits is_word
row_fits-word f h e = ground arith

pub Written-HoldsWord :
    {s : PageSnapshot} {f : PageField} {m0 m : Memory}
    → is_word f ≡ true
    → row_fits f ≡ true
    → Written s f m0 m
    → HoldsWord s f m
Written-HoldsWord {s} {f} {m = m} word fits w =
    let (v, e, h) =
      put_value-HoldsWord s f (answer s f.get) w.before w.after refl
        (sym (put_field-word s f w.before word) ∙ w.wrote) in
    (
      v,
      e,
      read_le-agree (width f.kind) m w.after f.offset
            (λ i lo hi. w.kept i (omega (arith, row_fits-word f word fits)))
          ∙ h,
    )

length-take_all {ℓ} : {A : Type ℓ} (n : ℕ) (xs : List A) → length xs ≤ n → take n xs ≡ xs
length-take_all zero [] h = refl
length-take_all zero (x ∷ xs) h = absurd (omega arith)
length-take_all (suc n) [] h = refl
length-take_all (suc n) (x ∷ xs) h = rw (length-take_all n xs (omega arith))

get_or-beyond : (xs : List ℕ) (k : ℕ) → length xs ≤ k → get_or xs k 0 ≡ 0
get_or-beyond [] k h = refl
get_or-beyond (x ∷ xs) zero h = absurd (omega arith)
get_or-beyond (x ∷ xs) (suc k) h = get_or-beyond xs k (omega arith)

put_field-node_name :
    (s : PageSnapshot) (f : PageField) (m : Memory)
    → f.name ≡ "nodeName"
    → put_field s f m ≡ ok (put_bytes m f.offset (take f.size s.node_name))
unfolding put_field
put_field-node_name s f m name =
    let not_magic : str_eq f.name "magic" ≡ false = ap (λ n. str_eq n "magic") name in
    let is_name : str_eq f.name "nodeName" ≡ true = ap (λ n. str_eq n "nodeName") name in
    rw (not_magic, is_name)

-- The nodeName row, from a zeroed page: the name, then zeros.
pub Written-node_name :
    {s : PageSnapshot} {f : PageField} {m : Memory} (k : ℕ)
    → Written s f zeroed m
    → f.name ≡ "nodeName"
    → length s.node_name ≤ f.size
    → k < f.size
    → m (f.offset + k) ≡ get_or s.node_name k 0
Written-node_name {s} {f} {m} k w name short lt =
    w.kept (f.offset + k) (omega arith)
    ∙ (ap (λ (g : Memory). g (f.offset + k)) (sym stored) ∙ value)
  where
    stored : put_bytes w.before f.offset s.node_name ≡ w.after
    stored =
        let e = put_field-node_name s f w.before name in
        let whole = length-take_all f.size s.node_name short in
        let cut : put_bytes w.before f.offset (take f.size s.node_name) ≡ w.after =
          cc (e, w.wrote) in
        rw (← whole) cut

    value : put_bytes w.before f.offset s.node_name (f.offset + k) ≡ get_or s.node_name k 0
    value = elim (dec_lt k (length s.node_name)) [
      | yes inside ↦ put_bytes-here w.before f.offset s.node_name k inside
      | no past ↦
          put_bytes-other w.before f.offset s.node_name (f.offset + k) (ground arith)
          ∙ (w.untouched (f.offset + k) (omega arith)
              ∙ sym (get_or-beyond s.node_name k (omega arith)))
    ]
