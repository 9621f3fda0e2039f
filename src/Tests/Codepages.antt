-- ===== src/Tests/Codepages.antt =====
-- libcifs/codepage.c and libcifs/buffer.c on a code page that has ASCII alone.
use cifscp.Base.{
  ℕ, ◌≤◌, ◌<◌, ◌≡◌, refl, ◌≢◌, Option, none, some, [], ◌∷◌, map, arith, ltb, if◌then◌else◌, length,
}
use cifscp.Base.Strings.{codes}
use cifscp.Memory.{Mem, zeroed, load}
use cifscp.Codepage.{written, failed, stuck, cp_buf, cp_image, escape_byte}
use cifscp.Codepage.Bounds.{cp_buf_bounds}
use cifscp.Codepage.Escape.{table_iconv, table_iconv-IsIconv, transcribe}
use cifscp.Codepage.Growing.{cp_bufa}
use cifscp.Buffer.{buf_new, buf_inc, backslash, write_path_oem}
use cifscp.Buffer.Inv.{buf_new-IsBuf}
use cifscp.Buffer.Write.{write_path_oem_lem}

abbrev ascii : ℕ → Option ℕ
ascii b = if ltb b 128 then some b else none

cp_buf_escapes : cp_buf (table_iconv ascii) (b'a' ∷ 0xe9 ∷ b'z' ∷ []) 16 ≡ written (codes "a%OJz")
unfolding cp_buf table_iconv escape_byte
cp_buf_escapes = refl

cp_buf_full : cp_buf (table_iconv ascii) (codes "abc") 2 ≡ failed (codes "ab")
unfolding cp_buf table_iconv
cp_buf_full = refl

cp_buf_bounds_example :
    (cp_buf (table_iconv ascii) (0xe9 ∷ b'z' ∷ []) 3 ≢ stuck)
    × (length (cp_image (cp_buf (table_iconv ascii) (0xe9 ∷ b'z' ∷ []) 3) 3) ≤ 3)
cp_buf_bounds_example = cp_buf_bounds (table_iconv-IsIconv ascii) (0xe9 ∷ b'z' ∷ []) 3

-- The room for two bytes holds no escape, and grows.
cp_bufa_grows : cp_bufa (table_iconv ascii) (0xe9 ∷ b'a' ∷ []) ≡ written (codes "%OJa")
unfolding cp_bufa table_iconv escape_byte
cp_bufa_grows = refl

write_path_oem_example :
    (m' : Mem) × (write_path_oem (table_iconv ascii) (codes "a/b") zeroed (buf_new 9)
      ≡ some (
        length (transcribe ascii (codes "a/b")),
        m',
        buf_inc (buf_new 9) (length (transcribe ascii (codes "a/b"))),
      ))
    × (load m' (buf_new 9).p (length (transcribe ascii (codes "a/b")))
        ≡ map backslash (transcribe ascii (codes "a/b")))
    × ((i : ℕ) → i < (buf_new 9).p → m' i ≡ zeroed i)
write_path_oem_example =
    write_path_oem_lem ascii (codes "a/b") zeroed (buf_new 9) (buf_new-IsBuf 9)
      (unfold transcribe buf_new in omega arith)
