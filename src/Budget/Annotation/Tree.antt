-- ===== src/Budget/Annotation/Tree.antt =====
-- The value that encoding/json builds for `any` in budget/v1alpha1/annotationpayload.go, with the
-- members of an object in their order, and the fields of a type as collectJSONFields names them.
use apis.Prelude.{String}

-- `number` is a number or a bool.
mutual
  pub data Json : Type 0 where
    null number : Json
    string : String → Json
    array : Elements → Json
    object : Members → Json

  pub data Elements : Type 0 where
    no_elements : Elements
    element : Json → Elements → Elements

  pub data Members : Type 0 where
    no_members : Members
    member : String → Json → Members → Members

-- A type behind its pointers: `leaf` is a type whose value has no keys to compare, metav1.Time too.
mutual
  pub data Shape : Type 0 where
    leaf : Shape
    slice : Shape → Shape
    struct : StructFields → Shape

  pub data StructFields : Type 0 where
    no_fields : StructFields
    field : String → Shape → StructFields → StructFields
