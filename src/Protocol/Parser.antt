-- ===== src/Protocol/Parser.antt =====
-- `Protocol::parse`: a strict flat JSON object. `nullptr` is `none`.
use tankervision_pdb.Common.{
  ℕ, zero, suc, Bool, true, false, not, ◌==◌, ◌||◌, ◌&&◌, leb, ltb, if◌then◌else◌, List, [], ◌∷◌,
  length, replicate, take, drop, Option, none, some, bit_and, bit_or, codes, bytes_eq, c_str,
}
use tankervision_pdb.Protocol.Request.{
  Command, status, pong, shutdown_ack, shutdown_ready, port_set, reboot, unknown, Request,
  empty_request, Code, bad_json, bad_request, unsupported_version, unknown_command,
}
use tankervision_pdb.Protocol.Lexer.{space, string, number}

-- The locals of `parse`: the request so far, the mask of keys seen, the version and the command.
pub record Parsing : Type 0 where
  pub out : Request
  pub fields : ℕ
  pub version : ℕ
  pub command : List ℕ

abbrev pub begin : Parsing
begin = record { out = empty_request; fields = 0; version = 0; command = replicate 32 0 }

-- The keys, in the order of the array `keys`.
pub data Key : Type 0 where
  version_key id_key command_key boot_id_key ping_id_key shutdown_id_key port_key : Key
  enabled_key : Key

unfoldable pub key_name : Key → List ℕ
key_name version_key = codes "v"
key_name id_key = codes "id"
key_name command_key = codes "cmd"
key_name boot_id_key = codes "boot_id"
key_name ping_id_key = codes "ping_id"
key_name shutdown_id_key = codes "shutdown_id"
key_name port_key = codes "port"
key_name enabled_key = codes "enabled"

-- `1u << index`
unfoldable pub key_bit : Key → ℕ
key_bit version_key = 1
key_bit id_key = 2
key_bit command_key = 4
key_bit boot_id_key = 8
key_bit ping_id_key = 16
key_bit shutdown_id_key = 32
key_bit port_key = 64
key_bit enabled_key = 128

abbrev pub all_keys : List Key
all_keys =
    version_key ∷ id_key ∷ command_key ∷ boot_id_key ∷ ping_id_key ∷ shutdown_id_key ∷ port_key
    ∷ enabled_key ∷ []

-- The loop over `keys`. It keeps the last match, and the names differ.
unfoldable pub find_key : List ℕ → List Key → Option Key
unfolding bytes_eq key_name
find_key name [] = none
find_key name (k ∷ ks) = elim (find_key name ks) [
  | none ↦ if bytes_eq name (key_name k) then some k else none
  | some j ↦ some j
]

abbrev pub all_commands : List Command
all_commands = status ∷ pong ∷ shutdown_ack ∷ shutdown_ready ∷ port_set ∷ reboot ∷ []

unfoldable pub command_name : Command → List ℕ
command_name status = codes "status"
command_name pong = codes "pong"
command_name shutdown_ack = codes "shutdown_ack"
command_name shutdown_ready = codes "shutdown_ready"
command_name port_set = codes "port_set"
command_name reboot = codes "reboot"
command_name unknown = []

-- The loop over `names`.
unfoldable pub find_command : List ℕ → List Command → Command
unfolding bytes_eq command_name
find_command name [] = unknown
find_command name (c ∷ cs) =
    let rest = find_command name cs in if bytes_eq name (command_name c) then c else rest

-- `strncmp(p, word, n)`, and the pointer behind the word.
unfoldable pub boolean : List ℕ → Bool → Bool × Bool × List ℕ
unfolding bytes_eq
boolean p old =
    if bytes_eq (take 4 p) (codes "true")
    then (true, true, drop 4 p)
    else if bytes_eq (take 5 p) (codes "false")
    then (true, false, drop 5 p)
    else (false, old, p)

-- The `switch` over the key: the value behind the colon.
unfoldable pub field_value : Key → List ℕ → Parsing → Bool × List ℕ × Parsing
unfolding string number boolean
field_value version_key p s =
    let (done, n, q) = number p s.version in (done, q, record s { version = n })
field_value id_key p s =
    let (done, n, q) = number p s.out.id in (done, q, record s { out = record (s.out) { id = n } })
field_value command_key p s =
    let (done, text, q) = string p s.command 32 in (done, q, record s { command = text })
field_value boot_id_key p s =
    let (done, text, q) = string p s.out.boot_id 9 in
    (done, q, record s { out = record (s.out) { boot_id = text } })
field_value ping_id_key p s =
    let (done, n, q) = number p s.out.ping_id in
    (done, q, record s { out = record (s.out) { ping_id = n } })
field_value shutdown_id_key p s =
    let (done, n, q) = number p s.out.shutdown_id in
    (done, q, record s { out = record (s.out) { shutdown_id = n } })
field_value port_key p s =
    let (done, text, q) = string p s.out.port 24 in
    (done, q, record s { out = record (s.out) { port = text } })
field_value enabled_key p s =
    let (done, b, q) = boolean p s.out.enabled in
    (done, q, record s { out = record (s.out) { enabled = b } })

-- One round of the loop: an error, the end of the object, or another field.
pub data Round : Type 0 where
  failed : Code → Parsing → Round
  finished : List ℕ → Parsing → Round
  more : List ℕ → Parsing → Round

-- Behind a value: the closing brace, or a comma that a brace must not follow.
unfoldable pub after_value : List ℕ → Parsing → Round
after_value [] s = failed bad_json s
after_value (c ∷ p) s =
    if c == b'}'
    then finished p s
    else if not (c == b',')
    then failed bad_json s
    else elim (space p) [
      | [] ↦ more [] s
      | d ∷ q ↦ if d == b'}' then failed bad_json s else more (d ∷ q) s
    ]

-- Behind a key that is known and new: its value.
unfoldable pub known_key : Key → List ℕ → Parsing → Round
unfolding key_bit field_value after_value
known_key k p s =
    if not (bit_and s.fields (key_bit k) == 0)
    then failed bad_request s
    else (let (done, q, s') = field_value k p (record s { fields = bit_or s.fields (key_bit k) }) in
        if done then after_value (space q) s' else failed bad_json s')

-- Behind a key's closing quote: the colon, then the key is looked up.
unfoldable pub after_key : List ℕ → List ℕ → Parsing → Round
unfolding find_key known_key
after_key name [] s = failed bad_json s
after_key name (c ∷ p) s =
    if c == b':'
    then elim (find_key name all_keys) [
      | none ↦ failed bad_request s
      | some k ↦ known_key k (space p) s
    ]
    else failed bad_json s

unfoldable pub field_round : List ℕ → Parsing → Round
unfolding string after_key
field_round [] s = failed bad_json s
field_round (c ∷ p) s =
    if c == b'}'
    then finished p s
    else (let (done, key, q) = string (c ∷ p) (replicate 32 0) 32 in
        if done then after_key (c_str key) (space q) s else failed bad_json s)

-- The loop. `none` means that the fuel ran out.
unfoldable pub fields_loop : ℕ → List ℕ → Parsing → Option Round
fields_loop zero p s = none
fields_loop (suc fuel) p s = elim (field_round (space p) s) [
  | more q s' ↦ fields_loop fuel q s'
  | finished q s' ↦ some (finished q s')
  | failed c s' ↦ some (failed c s')
]

-- The keys that a command requires, and no others.
unfoldable pub required : Command → ℕ
required status = 7
required pong = 31
required shutdown_ack = 47
required shutdown_ready = 47
required port_set = 207
required reboot = 15
required unknown = 15

abbrev pub is_hex : ℕ → Bool
is_hex c = leb b'0' c && leb c b'9' || leb b'A' c && leb c b'F'

unfoldable pub all_hex : List ℕ → Bool
all_hex [] = true
all_hex (c ∷ cs) = (c == 0 || is_hex c) && all_hex cs

abbrev pub is_unknown : Command → Bool
is_unknown unknown = true
is_unknown _ = false

-- The checks behind the object.
unfoldable pub check_request : Parsing → Option Code × Request
unfolding find_command required all_hex
check_request s =
    if not (bit_and s.fields 7 == 7) || s.out.id == 0
    then (some bad_request, s.out)
    else if not (s.version == 1)
    then (some unsupported_version, s.out)
    else (let r = record (s.out) { command = find_command (c_str s.command) all_commands } in
        if is_unknown r.command
        then (some unknown_command, r)
        else if not (s.fields == required r.command)
        then (some bad_request, r)
        else if not (bit_and (required r.command) 8 == 0)
            && (not (length (c_str r.boot_id) == 8) || not (all_hex r.boot_id))
        then (some bad_request, r)
        else (none, r))

unfoldable pub after_object : Round → Option Code × Request
unfolding check_request
after_object (failed c s) = (some c, s.out)
after_object (more q s) = (some bad_json, s.out)
after_object (finished q s) = elim (space q) [
  | [] ↦ check_request s
  | c ∷ rest ↦ (some bad_json, s.out)
]

unfoldable pub object : List ℕ → Option (Option Code × Request)
unfolding fields_loop after_object
object [] = some (some bad_json, empty_request)
object (c ∷ p) =
    if c == b'{'
    then elim (fields_loop (suc (length p)) p begin) [
      | none ↦ none
      | some r ↦ some (after_object r)
    ]
    else some (some bad_json, empty_request)

-- `line` is a C string, so it holds no NUL. The outer option is `none` if the fuel ran out.
unfoldable pub parse : List ℕ → Option (Option Code × Request)
unfolding object
parse line =
    if ltb 512 (length line) then some (some bad_json, empty_request) else object (space line)
