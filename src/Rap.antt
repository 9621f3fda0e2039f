-- ===== src/Rap.antt =====
-- libcifs/rap.c and libcifs/rpc.c: the lists of shares, servers and domains. Both files have the
-- same code but for the name of the pipe. Records are read from the data block of the transaction; a
-- read outside the block is a fault.
pub mod Counted
use cifscp.Base.{
  ℕ, zero, suc, ◌+◌, ◌-◌, ◌*◌, ◌/◌, ◌%◌, ◌^◌, ◌≤◌, ◌<◌, min, ◌≡◌, refl, sym, ap, ◌∙◌, ◌≢◌, ◌↔◌, ◌⊎◌,
  inl, inr, Bool, true, false, not, ◌&&◌, ◌||◌, Option, none, some, List, [], ◌∷◌, ◌++◌, map, arith,
  ltb, leb, ◌==◌, if◌then◌else◌, ltb→lt, lt→ltb, ==_iff, Bool-cases, Option-cases, length, take,
  drop, replicate, length-append, length-take, length-drop, take-append-drop, take-add, take-take,
  take_self, append-split, append-cancel, take-all, drop-all, length-map, length-replicate,
}
use cifscp.Base.Strings.{Bytes, codes}
use cifscp.Cstring.{pos, negsuc}
use cifscp.Memory.{Mem, zeroed, store, load, get16, get32}
use cifscp.Codepage.{Iconv, cp_buf, cp_image}
use cifscp.Buffer.{Writer, ◌>>◌, write_byte, write_word, write_long, write_strz}
use cifscp.Packet.{Packet, words_at, eio}
use cifscp.Transport.{Why, code}
use cifscp.Connect.{Conn, Outcome, done, refused, fault, no_end, and_then}
use cifscp.Transact.{Block, Trans, trans_request}
use cifscp.Proto.{Pages, put16, write_body, with_request}
use cifscp.Proto.Session.{tree_ipc, tree_set}
use cifscp.Proto.Files.{offset_here}
use cifscp.Find.{trans_draft, text_at}

pub data NodeType : Type 0 where
  share server domain : NodeType

-- `cifs_node_t`.
pub record Node : Type 0 where
  pub type : NodeType
  pub attributes : ℕ
  pub name : Bytes
  pub comment : Bytes

-- The call's number, the descriptors and the arguments, which depend on what is listed.
unfoldable pub enum_params : NodeType → Bytes → Writer
enum_params share name =
    write_word 0
    >> write_strz (codes "WrLeh")
    >> write_strz (codes "B13BWz")
    >> write_word 1
    >> write_word 61440
enum_params server name =
    write_word 104
    >> write_strz (codes "WrLehDz")
    >> write_strz (codes "B16BBDz")
    >> write_word 1
    >> write_word 61440
    >> write_long 4294967295
    >> write_strz name
enum_params domain name =
    write_word 104
    >> write_strz (codes "WrLehDz")
    >> write_strz (codes "B16BBDz")
    >> write_word 1
    >> write_word 61440
    >> write_long 2147483648
    >> write_byte 0

-- The parameters are what stands behind `param_offset`.
abbrev counted : Packet → Packet
counted o = let n = offset_here o - get16 o.mem (words_at + 20) in put16 0 n (put16 18 n o)

unfoldable pub enum_draft : Pages → Bytes → NodeType → Bytes → Conn → Option Packet
unfolding enum_params trans_draft write_body put16
enum_draft pages pipe type name c = elim (trans_draft pages 0x25 (some pipe) [] c) [
  | none ↦ none
  | some o ↦ elim (write_body (enum_params type name) o) [
    | none ↦ none
    | some o' ↦ some (counted o')
  ]
]

-- The size of a record, of the name in it, and where type and comment stand.
abbrev pub record_size : NodeType → ℕ
record_size share = 20
record_size server = 26
record_size domain = 26

abbrev pub name_size : NodeType → ℕ
name_size share = 13
name_size server = 16
name_size domain = 16

abbrev attributes_at : NodeType → Mem → ℕ → ℕ
attributes_at share m at = get16 m (at + 14)
attributes_at server m at = get32 m (at + 18)
attributes_at domain m at = get32 m (at + 18)

abbrev comment_at : NodeType → Mem → ℕ → ℕ
comment_at share m at = get32 m (at + 16) % 65536
comment_at server m at = get32 m (at + 22) % 65536
comment_at domain m at = get32 m (at + 22) % 65536

-- What a field of 64 bytes, cleared by `calloc`, holds behind a conversion: its bytes up to a NUL.
-- (A conversion that fills the field leaves it without a terminator.)
abbrev field_text : Iconv → Bytes → Bytes
field_text page s = text_at 64 (store zeroed 0 (cp_image (cp_buf page s 64) 64)) 0

-- `strlen` of a string that ends in the block.
unfoldable pub ends_in : ℕ → Mem → ℕ → Bool
ends_in zero m at = false
ends_in (suc n) m at = let rest = ends_in n m (at + 1) in m at == 0 || rest

-- One record: the comment is a C string in the block, at an offset from which `conv` is taken.
unfoldable pub read_node : Iconv → NodeType → ℕ → Block → ℕ → Option Node
unfolding text_at ends_in
read_node page type conv b at =
    let where_to = comment_at type b.mem at in
    let begins = where_to - conv in
    if ltb b.buf.x (at + record_size type)
      || (ltb where_to conv || not (ends_in (b.buf.x - begins) b.mem begins))
    then none
    else some (record {
      type = type;
      attributes = attributes_at type b.mem at;
      name = field_text page (load b.mem at (name_size type));
      comment = field_text page (text_at (b.buf.x - begins) b.mem begins);
    })

-- The loop over the records.
abbrev pub node_then : Option Node → Option (List Node) → Option (List Node)
node_then none rest = none
node_then (some n) none = none
node_then (some n) (some ns) = some (n ∷ ns)

unfoldable pub read_nodes : Iconv → NodeType → ℕ → Block → ℕ → ℕ → Option (List Node)
unfolding read_node
read_nodes page type conv b zero at = some []
read_nodes page type conv b (suc n) at =
    node_then (read_node page type conv b at)
      (read_nodes page type conv b n (at + record_size type))

-- `cifs_rapenum_s`, at the beginning of the parameters.
unfoldable pub enum_result : Iconv → NodeType → Trans → Conn → Outcome (List Node)
unfolding read_nodes
enum_result page type t c =
    let m = t.param.mem in
    let at = t.param.buf.p in
    if not (get16 m at == 0)
    then refused (code eio) c
    else elim (read_nodes page type (get16 m (at + 2)) t.data_block (get16 m (at + 4))
        t.data_block.buf.p) [ none ↦ fault | some ns ↦ done ns c ]

-- Whatever comes of the request, the tree of the connection is set again.
unfoldable pub back_in_tree : Outcome (List Node) → Outcome (List Node)
unfolding tree_set
back_in_tree (done ns c) = done ns (tree_set (negsuc 0) c)
back_in_tree (refused w c) = refused w (tree_set (negsuc 0) c)
back_in_tree fault = fault
back_in_tree no_end = no_end

unfoldable pub scan_pipe :
    ℕ → Pages → Iconv → Bytes → NodeType → Bytes → Trans → Conn → Outcome (List Node)
unfolding enum_draft enum_result back_in_tree
scan_pipe fuel pages page pipe type name t c = and_then (tree_ipc fuel pages c) (λ _ c1.
    back_in_tree (
      with_request c1 (enum_draft pages pipe type name c1)
        (λ c2. and_then (trans_request fuel fuel t c2) (enum_result page type))))

-- `cifs_scannode` and `cifs_scannode_rpc`, with a new transaction `t`.
unfoldable pub scannode : ℕ → Pages → Iconv → NodeType → Bytes → Trans → Conn → Outcome (List Node)
unfolding scan_pipe
scannode fuel pages page type name t c =
    scan_pipe fuel pages page (codes "\\PIPE\\LANMAN") type name t c

unfoldable pub scannode_rpc :
    ℕ → Pages → Iconv → NodeType → Bytes → Trans → Conn → Outcome (List Node)
unfolding scan_pipe
scannode_rpc fuel pages page type name t c =
    scan_pipe fuel pages page (codes "\\PIPE\\srvsvc") type name t c
