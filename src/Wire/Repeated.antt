-- ===== src/Wire/Repeated.antt =====
-- core/encoding.go: repeated strings and string maps in the buffer of an encoder.
use agent_semantic_protocol.Common.{
  ℕ, ◌≡◌, ◌∙◌, List, [], ◌∷◌, ◌++◌, Bytes, arith, append-nil, append_assoc, All,
}
use agent_semantic_protocol.Common.Outcome.{Error, message, ok}
use agent_semantic_protocol.Wire.Protowire.{
  Protowire, IsProtowire, IsFieldNumber, FitsSlice, bytes_type,
}
use agent_semantic_protocol.Wire.Maps.{Assoc, IsFresh, put, put-fresh}
use agent_semantic_protocol.Wire.Encoder.{strs, map_entry, str_map}
use agent_semantic_protocol.Wire.Fields.{
  Case, read_string, read_entry, entry_case, decode_str_map_entry,
}
use agent_semantic_protocol.Wire.Writes.{
  Writes, Writes-chunk, Writes-empty, Writes-decode, tag_string, tag_bytes,
}

-- A map whose keys, values and entries have the length of a Go slice.
abbrev pub FitsEntries : Protowire → Assoc Bytes → Type 0
FitsEntries w [] = Unit
FitsEntries w ((k, v) ∷ m) =
    (FitsSlice k × FitsSlice v × FitsSlice (map_entry w k v)) × FitsEntries w m

module _ (w : Protowire) (laws : IsProtowire w) where
  -- An entry is read back.
  pub decode_str_map_entry-map_entry :
      (k v : Bytes)
      → FitsSlice k
      → FitsSlice v
      → decode_str_map_entry w (map_entry w k v) ≡ ok (k, v)
  unfolding decode_str_map_entry map_entry entry_case
  decode_str_map_entry-map_entry k v hk hv = Writes-decode w laws _ _ second
    where
      first :
          Writes w
            (message "invalid map entry tag")
            (entry_case w)
            ([], [])
            (w.append_string (w.append_tag [] 1 bytes_type) k)
            (k, [])
      first =
          Writes-chunk w laws _ _ 1 bytes_type (w.append_string [] k) [] _ ([], []) (k, [])
            (omega arith) (omega arith) (tag_string w laws 1 k [])
            (λ rest. rw (laws.string_read k rest hk)) (Writes-empty w laws _ _)

      second :
          Writes w
            (message "invalid map entry tag")
            (entry_case w)
            ([], [])
            (map_entry w k v)
            (k, v)
      second =
          Writes-chunk w laws _ _ 2 bytes_type (w.append_string [] v) _ _ (k, []) (k, v)
            (omega arith) (omega arith) (tag_string w laws 2 v _)
            (λ rest. rw (laws.string_read v rest hv)) first

module _ {ℓ} {M : Type ℓ} (w : Protowire) (laws : IsProtowire w) (bad_tag : Error) (step : Case M)
    {m0 : M} where
  -- Each string of a repeated field is one round that appends it.
  pub Writes-strs :
      (num : ℕ) (e : Error) (at : List Bytes → M) (ss prior : List Bytes) (buf : Bytes)
      → IsFieldNumber num
      → All FitsSlice ss
      → ((xs : List Bytes) (body : Bytes)
          → step num bytes_type body (at xs) ≡ read_string w e (λ s. at (xs ++ (s ∷ []))) body)
      → Writes w bad_tag step m0 buf (at prior)
      → Writes w bad_tag step m0 (strs w num ss buf) (at (prior ++ ss))
  unfolding strs
  Writes-strs num e at [] prior buf hn hs es h = rw (append-nil prior) h
  Writes-strs num e at (s ∷ ss) prior buf hn (hs, hss) es h =
      rw (← append_assoc prior (s ∷ []) ss) (
        Writes-strs num e at ss (prior ++ (s ∷ [])) _ hn hss es (
          Writes-chunk w laws bad_tag step num bytes_type (w.append_string [] s) buf _ (at prior)
            (at (prior ++ (s ∷ []))) hn (omega arith) (tag_string w laws num s buf)
            (λ rest. es prior _ ∙ rw (laws.string_read s rest hs)) h))

  -- Each entry of a map field is one round that puts it.
  pub Writes-str_map :
      (num : ℕ) (e : Error) (at : Assoc Bytes → M) (m prior : Assoc Bytes) (buf : Bytes)
      → IsFieldNumber num
      → FitsEntries w m
      → IsFresh prior m
      → ((xs : Assoc Bytes) (body : Bytes)
          → step num bytes_type body (at xs) ≡ read_entry w e (λ k v. at (put k v xs)) body)
      → Writes w bad_tag step m0 buf (at prior)
      → Writes w bad_tag step m0 (str_map w num m buf) (at (prior ++ m))
  unfolding str_map
  Writes-str_map num e at [] prior buf hn hs fresh es h = rw (append-nil prior) h
  Writes-str_map num e at ((k, v) ∷ m) prior buf hn ((hk, hv, he), hm) (new, fresh) es h =
      rw (← append_assoc prior ((k, v) ∷ []) m) (
        Writes-str_map num e at m (prior ++ ((k, v) ∷ [])) _ hn hm fresh es (
          Writes-chunk w laws bad_tag step num bytes_type (w.append_bytes [] (map_entry w k v)) buf
            _ (at prior) (at (prior ++ ((k, v) ∷ []))) hn (omega arith)
            (tag_bytes w laws num (map_entry w k v) buf)
            (λ rest.
              es prior _
              ∙ rw (laws.bytes_read (map_entry w k v) rest he) (
                  rw (decode_str_map_entry-map_entry w laws k v hk hv)
                    (rw (put-fresh k v prior new))))
            h))
