-- ===== src/Budget/Annotation/Keys/Exact.antt =====
-- checkExactKeys of budget/v1alpha1/annotationpayload.go against the keys of a JSON value.
use apis.Prelude.{◌≡◌, ◌⊎◌, inl, inr, refl, true, Option, none, some, String, is_some, subst}
use apis.Prelude.Outcomes.{Outcome, ok, err, ◌>>◌, >>-eq-ok}
use apis.Budget.Annotation.Tree.{
  Json, array, object, Elements, no_elements, element, Members, no_members, member, Shape, slice,
  struct, StructFields,
}
use apis.Budget.Annotation.Keys.{
  KeyFault, unknown_field, find_field, check_exact_keys, check_elements, check_members,
}

abbrev pub HasElement : Elements → Json → Type 0
HasElement no_elements j = ⊥
HasElement (element i es) j = (i ≡ j) ⊎ HasElement es j

abbrev pub HasMember : Members → String → Json → Type 0
HasMember no_members k j = ⊥
HasMember (member l i ms) k j = ((l ≡ k) × (i ≡ j)) ⊎ HasMember ms k j

-- Somewhere in a value, read at a type, an object with the key `k` stands for a struct with these
-- fields.
pub data KeyAt : Json → Shape → StructFields → String → Type 0 where
  at_object :
      {ms : Members} {fs : StructFields} {k : String} (j : Json)
      → HasMember ms k j
      → KeyAt (object ms) (struct fs) fs k
  in_member :
      {ms : Members} {fs gs : StructFields} {k : String} (l : String) (j : Json) (t : Shape)
      → HasMember ms l j
      → find_field l fs ≡ some t
      → KeyAt j t gs k
      → KeyAt (object ms) (struct fs) gs k
  in_element :
      {es : Elements} {t : Shape} {gs : StructFields} {k : String} (j : Json)
      → HasElement es j
      → KeyAt j t gs k
      → KeyAt (array es) (slice t) gs k

check_elements-HasElement :
    (es : Elements) (t : Shape) (j : Json)
    → check_elements es t ≡ ok tt
    → HasElement es j
    → check_exact_keys j t ≡ ok tt
unfolding check_exact_keys
check_elements-HasElement no_elements t j h m = absurd m
check_elements-HasElement (element i es) t j h (inl same) =
    subst (λ x. check_exact_keys x t ≡ ok tt) same
      (>>-eq-ok (check_exact_keys i t) (check_elements es t) h).0
check_elements-HasElement (element i es) t j h (inr later) =
    check_elements-HasElement es t j (>>-eq-ok (check_exact_keys i t) (check_elements es t) h).1
      later

-- The check of one member.
abbrev check_member : Option Shape → Json → Outcome KeyFault (Unit {0})
check_member none j = err unknown_field
check_member (some t) j = check_exact_keys j t

check_members-member :
    (l : String) (i : Json) (ms : Members) (fs : StructFields)
    → check_members (member l i ms) fs ≡ ok tt
    → (check_member (find_field l fs) i ≡ ok tt) × (check_members ms fs ≡ ok tt)
unfolding check_exact_keys
check_members-member l i ms fs h = one (find_field l fs) h
  where
    both : Option Shape → Outcome KeyFault (Unit {0})
    both o =
        elim o [ none ↦ err unknown_field | some t ↦ check_exact_keys i t ] >> check_members ms fs

    one :
        (o : Option Shape)
        → both o ≡ ok tt
        → (check_member o i ≡ ok tt) × (check_members ms fs ≡ ok tt)
    one none g = absurd (cc)
    one (some t) g = >>-eq-ok (check_exact_keys i t) (check_members ms fs) g

check_members-HasMember :
    (ms : Members) (fs : StructFields) (k : String) (j : Json)
    → check_members ms fs ≡ ok tt
    → HasMember ms k j
    → check_member (find_field k fs) j ≡ ok tt
check_members-HasMember no_members fs k j h m = absurd m
check_members-HasMember (member l i ms) fs k j h (inr later) =
    check_members-HasMember ms fs k j (check_members-member l i ms fs h).1 later
check_members-HasMember (member l i ms) fs k j h (inl (key, value)) =
    subst (λ x. check_member (find_field x fs) j ≡ ok tt) key
      (subst (λ x. check_member (find_field l fs) x ≡ ok tt) value
        (check_members-member l i ms fs h).0)

check_member-is_some : (o : Option Shape) (j : Json) → check_member o j ≡ ok tt → is_some o ≡ true
check_member-is_some none j h = absurd (cc)
check_member-is_some (some t) j h = refl

-- If checkExactKeys accepts a value at a type, each key of an object that stands for a struct is, byte
-- for byte, the name of one of its fields.
pub check_exact_keys-KeyAt :
    {j : Json} {t : Shape} {fs : StructFields} {k : String}
    → check_exact_keys j t ≡ ok tt
    → KeyAt j t fs k
    → is_some (find_field k fs) ≡ true
unfolding check_exact_keys
check_exact_keys-KeyAt h (at_object {ms} {fs} {k} j m) =
    check_member-is_some (find_field k fs) j (check_members-HasMember ms fs k j h m)
check_exact_keys-KeyAt h (in_member {ms} {fs} l j t m found below) =
    check_exact_keys-KeyAt
      (subst (λ o. check_member o j ≡ ok tt) found (check_members-HasMember ms fs l j h m)) below
check_exact_keys-KeyAt h (in_element {es} {t} j m below) =
    check_exact_keys-KeyAt (check_elements-HasElement es t j h m) below
