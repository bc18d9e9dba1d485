-- ===== src/Cpio/Tests.antt =====
-- The extraction at a small disk.
use archa_os.Base.{Bool, false, ℕ, ◌+◌, ◌≡◌, refl, true, ◌==◌, if◌then◌else◌, [], some, arith}
use archa_os.Fs.{Fs, Allocator, same}
use archa_os.Fs.Files.{zeroed}
use archa_os.Stdio.Hex.{hex_text}
use archa_os.Cpio.{
  Header, refused, header, read_name, read_fields, hex8_loop, digit, bytes_before_nul, strip_dots,
  without_last, strip_slashes, hex8, bytes_at, read_header, parse_cpio_disk,
}
use archa_os.Cpio.Hex8.{hex8-hex_text}
use archa_os.Cpio.Rounds.{in_disk, read_header-in_disk, ends, parse_cpio_disk-ends}

abbrev heap : Allocator ℕ
heap = record { kmalloc = λ n h. (h, h + 100); kcalloc = λ n m h. (h, h + 100); kfree = λ p h. h }

abbrev no_files : Fs ℕ
no_files = record { file = λ x. zeroed; text = λ p. []; memory = λ x. b'0'; heap = 1000 }

-- `0000BEEF` at address 4.
abbrev digits : ℕ → ℕ
digits x =
    if x == 8
    then b'B'
    else if x == 9
    then b'E'
    else if x == 10
    then b'E'
    else if x == 11
    then b'F'
    else b'0'

digits-hex_text : bytes_at 8 4 digits ≡ hex_text 8 48879
unfolding bytes_at hex_text
digits-hex_text = refl

hex8-hex_text_example : hex8 4 digits ≡ some 48879
hex8-hex_text_example = hex8-hex_text 48879 4 digits (omega arith) digits-hex_text

parse_cpio_disk-ends_example : ends (parse_cpio_disk 8 heap 5 2000 120 no_files) ≡ true
parse_cpio_disk-ends_example = parse_cpio_disk-ends 8 heap 5 2000 120 no_files

-- At 2000 a header without contents, with the name `a`.
abbrev item : ℕ → ℕ
item x =
    if x == 2001
    then b'7'
    else if x == 2003
    then b'7'
    else if x == 2005
    then b'1'
    else if x == 2101
    then b'2'
    else if x == 2110
    then b'a'
    else if x == 2111
    then 0
    else b'0'

accepted : Header → Bool
accepted (refused r) = false
accepted (header name b c d) = true

item-accepted : accepted (read_header 2000 120 0 item) ≡ true
unfolding accepted read_header read_name read_fields hex8 hex8_loop digit bytes_at bytes_before_nul
    strip_dots without_last strip_slashes same
item-accepted = refl

read_header-in_disk_example : in_disk 120 110 (read_header 2000 120 0 item) ≡ true
read_header-in_disk_example = read_header-in_disk 2000 120 0 item
