-- ===== src/Relay/Handlers.antt =====
-- The HTTP handlers of internal/relay/server.go. A handler that holds the drop's lock throughout is
-- one step; `handle_get` gives the lock up while it serves, so its two locked parts are steps of
-- their own. The clock is read once for each step.
mod Create
mod Put
mod Get
mod Other
unfoldable pub use Create.*
unfoldable pub use Put.*
unfoldable pub use Get.*
unfoldable pub use Other.*
