-- ===== src/Page/Bytes.antt =====
-- Byte memories: what binary.LittleEndian, copy and a zeroed array do in budget/v1alpha1/page.go.
use native.Mathlib.Nat.{div-div-eq-div-mul, mod-add-div, pow-suc}
use apis.Prelude.{
  ℕ, zero, suc, ◌+◌, ◌-◌, ◌*◌, ◌/◌, ◌%◌, ◌^◌, ◌≤◌, ◌<◌, ◌≡◌, refl, sym, ◌∙◌, ap, Bool, false, ◌&&◌,
  List, arith, ltb, leb, if◌then◌else◌, length, get_or,
}

-- The byte at each offset.
abbrev pub Memory : Type 0
Memory = ℕ → ℕ

abbrev pub zeroed : Memory
zeroed _ = 0

-- Whether offset i lies in the n bytes at off.
abbrev pub within : ℕ → ℕ → ℕ → Bool
within off n i = leb off i && ltb i (off + n)

-- Byte k of a little-endian word.
unfoldable pub byte_of : ℕ → ℕ → ℕ
byte_of v zero = v % 256
byte_of v (suc k) = byte_of (v / 256) k

-- binary.LittleEndian.PutUint16, PutUint32 and PutUint64 at width n.
unfoldable pub put_le : Memory → ℕ → ℕ → ℕ → Memory
put_le m off n v i = if within off n i then byte_of v (i - off) else m i

-- binary.LittleEndian.Uint16, Uint32 and Uint64 at width n.
unfoldable pub read_le : Memory → ℕ → ℕ → ℕ
read_le m off zero = 0
read_le m off (suc n) = m off + 256 * read_le m (off + 1) n

-- copy of bs to offset off.
unfoldable pub put_bytes : Memory → ℕ → List ℕ → Memory
put_bytes m off bs i = if within off (length bs) i then get_or bs (i - off) 0 else m i

mod_step : (v p : ℕ) → v % 256 + 256 * (v / 256 % p) ≡ v % (256 * p)
mod_step v p = omega (
  arith,
  div-div-eq-div-mul v 256 p,
  mod-add-div v (256 * p),
  mod-add-div (v / 256) p,
  ap (λ (d : ℕ). 256 * (p * d)) (div-div-eq-div-mul v 256 p),
)

-- A memory that holds the bytes of v at off reads back v, cut to the width.
read_le_of_bytes :
    (n : ℕ) (m : Memory) (off v : ℕ)
    → ((k : ℕ) → k < n → m (off + k) ≡ byte_of v k)
    → read_le m off n ≡ v % 256 ^ n
unfolding read_le byte_of
read_le_of_bytes zero m off v h = omega arith
read_le_of_bytes (suc n) m off v h =
    omega (arith, first, mod_step v (256 ^ n), read_le_of_bytes n m (off + 1) (v / 256) later, pow)
  where
    first : m off ≡ v % 256
    first = let e : off + 0 ≡ off = omega arith in ap m (sym e) ∙ h 0 (omega arith)

    later : (k : ℕ) → k < n → m (off + 1 + k) ≡ byte_of (v / 256) k
    later k lt = let e : off + 1 + k ≡ off + suc k = omega arith in ap m e ∙ h (suc k) (omega arith)

    pow : v % 256 ^ suc n ≡ v % (256 * 256 ^ n)
    pow = let e : 256 ^ suc n ≡ 256 * 256 ^ n = omega (arith, pow-suc 256 n) in ap (λ p. v % p) e

pub read_le-put_le : (m : Memory) (off n v : ℕ) → read_le (put_le m off n v) off n ≡ v % 256 ^ n
unfolding put_le
read_le-put_le m off n v = read_le_of_bytes n (put_le m off n v) off v λ k lt. here k lt
  where
    here : (k : ℕ) → k < n → put_le m off n v (off + k) ≡ byte_of v k
    here k lt = let e : off + k - off ≡ k = omega arith in ground (arith, e)

pub put_le-other : (m : Memory) (off n v i : ℕ) → within off n i ≡ false → put_le m off n v i ≡ m i
unfolding put_le
put_le-other m off n v i h = rw h

pub put_bytes-other :
    (m : Memory) (off : ℕ) (bs : List ℕ) (i : ℕ)
    → within off (length bs) i ≡ false
    → put_bytes m off bs i ≡ m i
unfolding put_bytes
put_bytes-other m off bs i h = rw h

pub put_bytes-here :
    (m : Memory) (off : ℕ) (bs : List ℕ) (k : ℕ)
    → k < length bs
    → put_bytes m off bs (off + k) ≡ get_or bs k 0
unfolding put_bytes
put_bytes-here m off bs k lt =
    let e : off + k - off ≡ k = omega arith in ground (arith, ap (λ j. get_or bs j 0) e)

-- A read depends on the bytes it covers only.
pub read_le-agree :
    (n : ℕ) (m m' : Memory) (off : ℕ)
    → ((i : ℕ) → off ≤ i → i < off + n → m i ≡ m' i)
    → read_le m off n ≡ read_le m' off n
unfolding read_le
read_le-agree zero m m' off h = refl
read_le-agree (suc n) m m' off h =
    omega
      (arith, h off, read_le-agree n m m' (off + 1) (λ i lo hi. h i (omega arith) (omega arith)))
