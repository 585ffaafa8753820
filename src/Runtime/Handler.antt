-- ===== src/Runtime/Handler.antt =====
-- HandlerConfig of runtime/v1/handler.go. A map is the list of its entries, nil is `none`; a backend is
-- its int32. An error has one kind in each function, and is `none` or `false`.
pub mod Resolve
use apis.Prelude.{
  ℕ, ℤ, pos, Bool, true, false, not, ◌&&◌, Option, none, some, List, [], ◌∷◌, ◌++◌, String,
  if◌then◌else◌, any, all, str_eq, eqb_ℤ, is_some,
}

abbrev pub Handlers : Type 0
Handlers = List (String × ℤ)

pub record HandlerConfig : Type 0 where
  pub handlers : Option Handlers
  pub default_backend : ℤ

abbrev pub sandbox_backend_unspecified : ℤ
sandbox_backend_unspecified = pos 0

abbrev pub sandbox_backend_vm : ℤ
sandbox_backend_vm = pos 4

abbrev pub sandbox_backend_wasm : ℤ
sandbox_backend_wasm = pos 5

-- A read of a map.
unfoldable pub lookup : String → Handlers → Option ℤ
lookup name [] = none
lookup name ((k, b) ∷ rest) = if str_eq k name then some b else lookup name rest

-- The entries of a map that may be nil: a read of nil finds nothing.
abbrev pub entries : Option Handlers → Handlers
entries none = []
entries (some hs) = hs

-- DefaultHandlerConfig
unfoldable pub default_handlers : Handlers
default_handlers = ("vm", sandbox_backend_vm) ∷ ("wasm", sandbox_backend_wasm) ∷ []

-- Backend; `none` is ErrUnknownHandler.
unfoldable pub backend : HandlerConfig → String → Option ℤ
unfolding lookup
backend c handler =
    if str_eq handler "" then some c.default_backend else lookup handler (entries c.handlers)

-- One round of the last loop of WithDefaults.
unfoldable pub add_default : String × ℤ → Handlers → Handlers
add_default (k, b) hs = if is_some (lookup k hs) then hs else hs ++ ((k, b) ∷ [])

unfoldable pub add_defaults : Handlers → Handlers → Handlers
unfolding add_default
add_defaults [] hs = hs
add_defaults (d ∷ ds) hs = add_defaults ds (add_default d hs)

-- WithDefaults
unfoldable pub with_defaults : HandlerConfig → HandlerConfig
unfolding add_defaults default_handlers
with_defaults c = record c { handlers = some (add_defaults default_handlers (entries c.handlers)) }

-- validBackend: the keys of the generated table SandboxBackend_name.
unfoldable pub valid_backend : ℤ → Bool
valid_backend b = any (eqb_ℤ b) (pos 0 ∷ pos 1 ∷ pos 2 ∷ pos 3 ∷ pos 4 ∷ pos 5 ∷ [])

abbrev pub valid_entry : String × ℤ → Bool
valid_entry (name, b) = not (str_eq name "") && valid_backend b

-- Validate; `true` is no error.
unfoldable pub validate : HandlerConfig → Bool
validate c = valid_backend c.default_backend && all valid_entry (entries c.handlers)
