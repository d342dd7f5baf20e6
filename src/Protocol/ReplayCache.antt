-- ===== src/Protocol/ReplayCache.antt =====
-- `Protocol::ReplayCache`: the last sixteen answered requests.
use tankervision_pdb.Common.{
  ℕ, Bool, false, not, ◌%◌, ◌==◌, ◌&&◌, if◌then◌else◌, List, [], ◌∷◌, set, replicate, add32, Option,
  none, some,
}
use tankervision_pdb.Protocol.Request.{Request, Code, bad_request, fingerprint}

pub data Match : Type 0 where
  new same conflict : Match

pub record Reply : Type 0 where
  pub ok : Bool
  pub code : Code

abbrev pub no_reply : Reply
no_reply = record { ok = false; code = bad_request }

pub record Entry : Type 0 where
  pub id : ℕ
  pub hash : ℕ
  pub reply : Reply

abbrev pub no_entry : Entry
no_entry = record { id = 0; hash = 0; reply = no_reply }

pub record ReplayCache : Type 0 where
  pub entries : List Entry
  pub next : ℕ

abbrev pub empty : ReplayCache
empty = record { entries = replicate 16 no_entry; next = 0 }

-- The first entry in use with the request's id.
unfoldable pub find : ℕ → List Entry → Option Entry
find id [] = none
find id (e ∷ es) = if not (e.id == 0) && e.id == id then some e else find id es

-- The reply is the out parameter: as it came in where nothing matches.
unfoldable pub lookup : Request → Reply → ReplayCache → Match × Reply
unfolding find
lookup r reply c = elim (find r.id c.entries) [
  | none ↦ (new, reply)
  | some e ↦ (if e.hash == fingerprint r then same else conflict, e.reply)
]

unfoldable pub remember : Request → Reply → ReplayCache → ReplayCache
remember r reply c = record {
  entries = set c.entries (c.next % 16) (record { id = r.id; hash = fingerprint r; reply = reply });
  next = add32 c.next 1;
}
