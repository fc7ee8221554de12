-- ===== src/Json.antt =====
-- What the program uses of the JSON library (serde_json, outside the repository): a value with
-- views of it as each kind. `get` is the lookup of a field, which gives nothing on a value that is
-- no object.
mod Fields
unfoldable pub use Fields.*
