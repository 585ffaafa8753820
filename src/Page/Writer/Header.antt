-- ===== src/Page/Writer/Header.antt =====
-- The header line of the page as words: what Resume (budget/v1alpha1/page.go) stores and tests.
use apis.Prelude.{
  ℕ, ◌+◌, ◌*◌, ◌^◌, ◌≡◌, refl, ap, Bool, true, false, ◌&&◌, List, [], ◌∷◌, map, range, ◌==◌, codes,
  bytes_eq, ltb,
}
use apis.Page.Bytes.{byte_of, read_le}
use apis.Page.Snapshot.{page_header_size, page_magic, page_abi_major, page_abi_minor}
use apis.Page.Layout.{page_layout, page_body_size}
use apis.Page.Encode.{ok, err, Buffer, encode_page, check_page_snapshot, put_fields, copy_page}
use apis.Page.Writer.{
  Words, Store, PageWriter, scratch, encode_header, header_order, header_stores, header_byte,
  recognised, shrinks, resumed_seq, resumed_epoch, resume,
}

fresh_header : Buffer
unfolding encode_header encode_page check_page_snapshot put_fields page_layout copy_page
fresh_header = elim (encode_header scratch) [ ok page ↦ page | err _ ↦ scratch ]

encode_header-ok : encode_header scratch ≡ ok fresh_header
unfolding fresh_header
encode_header-ok = refl

-- The magic as a word.
abbrev pub magic_word : ℕ
magic_word = 6072897674088231755

-- The word of abiMajor, abiMinor and headerSize.
abbrev pub abi_word : ℕ
abi_word = page_abi_major + page_abi_minor * 2 ^ 16 + page_header_size * 2 ^ 32

abbrev pub zero_stores : List Store
zero_stores = (56, 0) ∷ (48, 0) ∷ (40, 0) ∷ (32, 0) ∷ (24, 0) ∷ []

-- The header stores in order, as numbers.
abbrev pub store_list : Bool → List Store
store_list true =
    (56, 0)
    ∷ (48, 0)
    ∷ (40, 0)
    ∷ (32, 0)
    ∷ (24, 0)
    ∷ (8, abi_word)
    ∷ (16, 2152)
    ∷ (0, magic_word)
    ∷ []
store_list false =
    (56, 0)
    ∷ (48, 0)
    ∷ (40, 0)
    ∷ (32, 0)
    ∷ (24, 0)
    ∷ (16, 2152)
    ∷ (8, abi_word)
    ∷ (0, magic_word)
    ∷ []

header_stores-true : header_stores fresh_header.at true ≡ store_list true
unfolding fresh_header header_order read_le byte_of
header_stores-true = refl

header_stores-false : header_stores fresh_header.at false ≡ store_list false
unfolding fresh_header header_order read_le byte_of
header_stores-false = refl

header_stores_lem : (b : Bool) → header_stores fresh_header.at b ≡ store_list b
header_stores_lem true = header_stores-true
header_stores_lem false = header_stores-false

abbrev pub resumed_writer : Words → PageWriter → PageWriter
resumed_writer words w = record w {
  seq = resumed_seq words;
  epoch = resumed_epoch words;
  resumed = true;
  has_last = false;
}

-- Resume never fails, and its stores are these.
pub resume_lem :
    (words : Words) (w : PageWriter)
    → resume words w ≡ ok (store_list (shrinks words), resumed_writer words w)
unfolding resume
resume_lem words w =
    rw encode_header-ok
      (ap (λ stores. ok (stores, resumed_writer words w)) (header_stores_lem (shrinks words)))

-- The parts of Resume's test, from the two words that it reads.
abbrev pub magic_ok : ℕ → Bool
magic_ok a = bytes_eq (map (byte_of a) (range 8)) (codes page_magic)

abbrev pub major_ok : ℕ → Bool
major_ok b = (byte_of b 0 + 256 * (byte_of b 1 + 256 * 0)) == page_abi_major

abbrev pub size_ok : ℕ → Bool
size_ok b =
    (byte_of b 4 + 256 * (byte_of b 5 + 256 * (byte_of b 6 + 256 * (byte_of b 7 + 256 * 0))))
    == page_header_size

abbrev pub recognises : ℕ → ℕ → Bool
recognises a b = magic_ok a && major_ok b && size_ok b

pub recognised_lem : (words : Words) → recognised words ≡ recognises (words 0) (words 8)
unfolding recognised
recognised_lem words = refl

pub recognises-fresh : recognises magic_word abi_word ≡ true
unfolding byte_of bytes_eq
recognises-fresh = refl

-- The header's abiMinor and bodySize.
unfoldable pub minor_of : Words → ℕ
unfolding read_le header_byte
minor_of words = read_le (header_byte words) 10 2

unfoldable pub body_size_in : Words → ℕ
unfolding read_le header_byte
body_size_in words = read_le (header_byte words) 16 4

abbrev pub minor_bits : ℕ → ℕ
minor_bits b = byte_of b 2 + 256 * (byte_of b 3 + 256 * 0)

abbrev pub size_bits : ℕ → ℕ
size_bits c =
    byte_of c 0 + 256 * (byte_of c 1 + 256 * (byte_of c 2 + 256 * (byte_of c 3 + 256 * 0)))

pub minor_of_lem : (words : Words) → minor_of words ≡ minor_bits (words 8)
unfolding minor_of
minor_of_lem words = refl

pub body_size_in_lem : (words : Words) → body_size_in words ≡ size_bits (words 16)
unfolding body_size_in
body_size_in_lem words = refl

pub fresh_bits : (minor_bits abi_word ≡ page_abi_minor) × (size_bits 2152 ≡ page_body_size)
unfolding byte_of page_body_size
fresh_bits = (refl, refl)

pub shrinks_lem :
    (words : Words) → shrinks words ≡ (recognised words && ltb page_body_size (body_size_in words))
unfolding shrinks body_size_in
shrinks_lem words = refl
