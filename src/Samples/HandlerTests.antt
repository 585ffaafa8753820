-- ===== src/Samples/HandlerTests.antt =====
-- The theorems on HandlerConfig (runtime/v1/handler.go) at a config that remaps one handler.
use apis.Prelude.{◌≡◌, pos, some, [], ◌∷◌}
use apis.Runtime.Handler.{HandlerConfig, lookup, default_handlers, backend, with_defaults}
use apis.Runtime.Handler.Resolve.{or_else, backend-with_defaults}

abbrev config : HandlerConfig
config = record { handlers = some (("vm", pos 3) ∷ []); default_backend = pos 0 }

backend-with_defaults_example :
    backend (with_defaults config) "wasm"
    ≡ or_else (backend config "wasm") (lookup "wasm" default_handlers)
backend-with_defaults_example = backend-with_defaults config "wasm"
