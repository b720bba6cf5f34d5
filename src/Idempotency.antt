-- ===== src/Idempotency.antt =====
-- app/idempotency.py: the registry of submit keys. The registry's lock makes each method atomic, so
-- a method is one step. The digest of `derive_key` (SHA-256 of the joined fields) is a parameter.
pub mod Registry
use Prim.Native.String.{◌++◌ as append}
use pdfsleuth.Common.{
  String, Bool, true, false, Option, none, some, Dict, lookup, insert, if◌then◌else◌, is_some,
}
use pdfsleuth.Models.{Order}

-- `_Entry`
pub record Entry : Type 0 where
  pub order_id : String
  pub sent : Bool

-- `IdempotencyRegistry._by_key`
abbrev pub IdempotencyRegistry : Type 0
IdempotencyRegistry = Dict Entry

-- `get` hands out a copy of the entry.
abbrev pub get : String → IdempotencyRegistry → Option Entry
get key r = lookup key r

-- What `reserve` does with the entry that it finds: the order is given the key only where the key
-- was free.
abbrev pub reserve_at :
    {D : Type 0}
    → Option Entry
    → String
    → Order D
    → IdempotencyRegistry
    → Entry × Order D × IdempotencyRegistry
reserve_at (some existing) key o r = (existing, o, r)
reserve_at none key o r =
    let entry : Entry = record { order_id = o.order_id; sent = false } in
    (entry, record o { client_order_id = some key }, insert key entry r)

unfoldable pub reserve :
    {D : Type 0} → String → Order D → IdempotencyRegistry → Entry × Order D × IdempotencyRegistry
reserve key o r = reserve_at (lookup key r) key o r

abbrev pub mark_at : Option Entry → String → IdempotencyRegistry → IdempotencyRegistry
mark_at none key r = r
mark_at (some e) key r = insert key (record e { sent = true }) r

unfoldable pub mark_sent : String → IdempotencyRegistry → IdempotencyRegistry
mark_sent key r = mark_at (lookup key r) key r

abbrev pub is_known : String → IdempotencyRegistry → Bool
is_known key r = is_some (lookup key r)

-- The text that `derive_key` digests: the fields, joined by "|".
abbrev pub joined : String → String → String → String → String → String → String
joined symbol side qty order_type limit_price nonce = append symbol (
    append "|" (
      append side (
        append "|" (
          append qty (
            append "|" (append order_type (append "|" (append limit_price (append "|" nonce)))))))))

unfoldable pub derive_key :
    (String → String) → String → String → String → String → String → String → String
derive_key digest symbol side qty order_type limit_price nonce =
    append "cid_" (digest (joined symbol side qty order_type limit_price nonce))
