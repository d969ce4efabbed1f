-- ===== src/Transaction/AccessList.antt =====
-- encodeAccessList writes the encoding of a node.
use sigryx.Base.{
  ◌≡◌, refl, sym, ap, ◌∙◌, false, Option, none, some, List, [], ◌∷◌, ◌++◌, append-nil,
}
use sigryx.Base.Bytes.{Bytes}
use sigryx.Rlp.{
  Node, Nodes, text, list, nil, cons, join, rlp_bytes, rlp_list, rlp_list_payload, encode,
  encode_nodes,
}
use sigryx.Hex.{decode_address, decode_fixed_hex}
use sigryx.Transaction.{
  AccessListEntry, push_key, encode_storage_keys, push_entry, encode_entries, as_rlp_list,
  encode_access_list,
}

-- The items as the nodes of a list
unfoldable Written : List Bytes → Type 0
Written items = (nodes : Nodes) × (join items ≡ encode_nodes nodes)

push_key-Written :
    (key : Option Bytes) (rest : Option (List Bytes)) (keys : List Bytes)
    → ((items : List Bytes) → rest ≡ some items → Written items)
    → push_key key rest ≡ some keys
    → Written keys
unfolding push_key encode Written
push_key-Written none rest keys h e = cc
push_key-Written (some key) none keys h e = cc
push_key-Written (some key) (some items) keys h e =
    let (nodes, w) = h items refl in
    let same : rlp_bytes key ∷ items ≡ keys = cc in
    (cons (text key) nodes, ap join (sym same) ∙ ap (λ l. rlp_bytes key ++ l) w)

encode_storage_keys-Written :
    (values keys : List Bytes) → encode_storage_keys values ≡ some keys → Written keys
unfolding encode_storage_keys Written encode
encode_storage_keys-Written [] keys h = let same : [] ≡ keys = cc in (nil, ap join (sym same))
encode_storage_keys-Written (value ∷ values) keys h =
    push_key-Written (decode_fixed_hex value 32) (encode_storage_keys values) keys
      (λ items e. encode_storage_keys-Written values items e) h

pair_join : (a b : Bytes) → join (a ∷ b ∷ []) ≡ a ++ b
pair_join a b = ap (λ l. a ++ l) (append-nil b)

push_entry-Written :
    (address : Option Bytes) (keys rest : Option (List Bytes)) (entries : List Bytes)
    → ((items : List Bytes) → keys ≡ some items → Written items)
    → ((items : List Bytes) → rest ≡ some items → Written items)
    → push_entry address keys rest ≡ some entries
    → Written entries
unfolding push_entry encode Written
push_entry-Written none keys rest entries g h e = cc
push_entry-Written (some address) none rest entries g h e = cc
push_entry-Written (some address) (some keys) none entries g h e = cc
push_entry-Written (some address) (some keys) (some items) entries g h e =
    let (key_nodes, k) = g keys refl in
    let (nodes, w) = h items refl in
    let entry = rlp_list (rlp_bytes address ∷ rlp_list keys ∷ []) in
    let same : entry ∷ items ≡ entries = cc in
    let node = list (cons (text address) (cons (list key_nodes) nil)) in
    let one : entry ≡ encode node =
      ap (λ (l : Bytes). rlp_list_payload (rlp_bytes address ++ (rlp_list_payload l ++ []))) k in
    (
      cons node nodes,
      ap join (sym same) ∙ ap (λ l. l ++ join items) one ∙ ap (λ l. encode node ++ l) w,
    )

encode_entries-Written :
    (entries : List AccessListEntry) (items : List Bytes)
    → encode_entries entries ≡ some items
    → Written items
unfolding encode_entries Written encode
encode_entries-Written [] items h = let same : [] ≡ items = cc in (nil, ap join (sym same))
encode_entries-Written (entry ∷ entries) items h =
    push_entry-Written (decode_address entry.address false) (encode_storage_keys entry.storage_keys)
      (encode_entries entries) items
      (λ keys e. encode_storage_keys-Written entry.storage_keys keys e)
      (λ rest e. encode_entries-Written entries rest e) h

-- The bytes of an access list are the encoding of a list of entries.
access_list_node :
    (items : Option (List Bytes)) (bytes : Bytes)
    → ((l : List Bytes) → items ≡ some l → Written l)
    → as_rlp_list items ≡ some bytes
    → (node : Node) × (bytes ≡ encode node)
unfolding Written encode
access_list_node none bytes h e = cc
access_list_node (some items) bytes h e =
    let (nodes, w) = h items refl in
    let same : rlp_list items ≡ bytes = cc in (list nodes, sym same ∙ ap rlp_list_payload w)

pub encode_access_list-encode :
    (entries : List AccessListEntry) (bytes : Bytes)
    → encode_access_list entries ≡ some bytes
    → (node : Node) × (bytes ≡ encode node)
unfolding encode_access_list
encode_access_list-encode entries bytes h =
    access_list_node (encode_entries entries) bytes
      (λ items e. encode_entries-Written entries items e) h
