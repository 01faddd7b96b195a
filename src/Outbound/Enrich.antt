-- ===== src/Outbound/Enrich.antt =====
-- internal/outbound/logrelay.go: the enrichment of one record. encoding/json is a parameter: `valid`
-- is json.Valid, `quote` the json.Marshal of a string, `marshal_tags` that of the tags, and `tokens` the
-- tokens that a json.Decoder reads up to its first error. Marshalling a string or a map of strings
-- does not fail.
pub mod TopLevel
pub mod Splice
use Prim.Native.Char.{code}
use vsockd.Common.{
  ℕ, zero, suc, Bool, true, false, not, ◌&&◌, ◌||◌, Option, none, some, List, [], ◌∷◌, ◌++◌, ◌-◌,
  if◌then◌else◌, ◌==◌, take, drop, length,
}
use vsockd.Go.Strings.{Bytes, bytes, is_empty, index_byte}
use vsockd.Config.Listeners.{is_nil}
use vsockd.Config.Types.{LogRelayEnrich, default_host_key, mem_bytes}

pub record EnrichConfig : Type 0 where
  pub cid : Bool
  pub host_key_json : Bytes
  pub host_obj_json : Bytes
  pub reserved : List Bytes

pub record Enricher : Type 0 where
  pub active : Bool
  pub prefix : Bytes
  pub reserved : List Bytes

-- what `Decoder.Token` returns: a delimiter, a string, or another scalar
pub data Token : Type 0 where
  open_delim close_delim scalar : Token
  text : Bytes → Token

-- the loop of `hasReservedTopLevelKey`, at `depth`
unfoldable pub scan : List Bytes → ℕ → Bool → List Token → Bool
scan reserved depth expect_key [] = false
scan reserved depth expect_key (open_delim ∷ ts) = scan reserved (suc depth) false ts
scan reserved depth expect_key (close_delim ∷ ts) =
    let rest = scan reserved (depth - 1) (depth - 1 == 1) ts in
    if depth - 1 == 0 then false else rest
scan reserved depth expect_key (scalar ∷ ts) =
    let rest = scan reserved depth (if depth == 1 then not expect_key else expect_key) ts in rest
scan reserved depth expect_key (text s ∷ ts) =
    let rest = scan reserved depth (if depth == 1 then not expect_key else expect_key) ts in
    if depth == 1 && expect_key && mem_bytes reserved s then true else rest

-- `hasReservedTopLevelKey`, on the tokens of the line: the first is the opening brace
unfoldable pub has_reserved_top_level_key : List Bytes → List Token → Bool
has_reserved_top_level_key reserved [] = false
has_reserved_top_level_key reserved (t ∷ ts) = scan reserved 1 true ts

abbrev is_space : ℕ → Bool
is_space c = c == b' ' || c == b'\t' || c == b'\r' || c == b'\n'

-- `bytes.TrimLeft(s, " \t\r\n")`
unfoldable pub trim_left : Bytes → Bytes
trim_left [] = []
trim_left (c ∷ s) = if is_space c then trim_left s else c ∷ s

abbrev starts_with : Bytes → ℕ → Bool
starts_with [] b = false
starts_with (c ∷ s) b = c == b

-- `IndexByte(line, '{') + 1`, where the index is -1 for a line without a brace
abbrev pub behind_brace : Bytes → ℕ
behind_brace line = elim (index_byte line b'{') [ none ↦ 0 | some i ↦ suc i ]

-- `spliceObject`
unfoldable pub splice_object : Bytes → Bytes → Bytes
splice_object prefix line =
    let rest = drop (behind_brace line) line in
    let put =
      if starts_with (trim_left rest) b'}' then take (length prefix - 1) prefix else prefix in
    if is_empty prefix then line else take (behind_brace line) line ++ (put ++ rest)

-- `wrapRaw`
unfoldable pub wrap_raw : (Bytes → Bytes) → Bytes → Bytes → Bool → Bytes
wrap_raw quote prefix line truncated =
    b'{'
    ∷ (prefix
        ++ (bytes "\"type\":\"raw\",\"msg\":"
            ++ (quote line
                ++ ((if truncated then bytes ",\"truncated\":true" else []) ++ (b'}' ∷ [])))))

-- `isJSONObject`
unfoldable pub is_json_object : (Bytes → Bool) → Bytes → Bool
is_json_object valid line = starts_with (trim_left line) b'{' && valid line

module _ (valid : Bytes → Bool) (quote : Bytes → Bytes) (tokens : Bytes → List Token) where
  -- `emit`
  unfoldable pub emit : Enricher → Bytes → Bool → Bytes
  emit e line truncated =
      if truncated
      then wrap_raw quote e.prefix line true
      else if not e.active
      then line
      else if is_json_object valid line
      then (if not (is_nil e.reserved) && has_reserved_top_level_key e.reserved (tokens line)
          then wrap_raw quote e.prefix line false
          else splice_object e.prefix line)
      else wrap_raw quote e.prefix line false

abbrev key_of : Bytes → Bytes
key_of k = if is_empty k then default_host_key else k

-- `newEnrichConfig`
unfoldable pub new_enrich_config :
    (Bytes → Bytes) → (List (Bytes × Bytes) → Bytes) → LogRelayEnrich → EnrichConfig
new_enrich_config quote marshal_tags e =
    let key = key_of e.host_key in
    let tagged = not (is_nil e.tags) in
    record {
      cid = e.cid;
      host_key_json = quote key;
      host_obj_json = if tagged then marshal_tags e.tags else [];
      reserved = (if e.cid then bytes "cid" ∷ [] else []) ++ (if tagged then key ∷ [] else []);
    }

-- `buildPrefix`
unfoldable build_prefix : (ℕ → Bytes) → EnrichConfig → ℕ → Bytes
build_prefix decimal ec cid =
    (if ec.cid then bytes "\"cid\":" ++ (decimal cid ++ (b',' ∷ [])) else [])
    ++ (if is_empty ec.host_obj_json
        then []
        else ec.host_key_json ++ (b':' ∷ (ec.host_obj_json ++ (b',' ∷ []))))

-- `newEnricher`
unfoldable new_enricher : (ℕ → Bytes) → Option EnrichConfig → ℕ → Enricher
new_enricher decimal none cid = record { active = false; prefix = []; reserved = [] }
new_enricher decimal (some ec) cid = record {
  active = true;
  prefix = build_prefix decimal ec cid;
  reserved = ec.reserved;
}
