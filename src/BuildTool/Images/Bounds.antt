-- ===== src/BuildTool/Images/Bounds.antt =====
-- scripts/build-tool/src/main.rs, which files `pe_machine_type` accepts.
use wisp_disk.Base.{
  ℕ, ◌+◌, ◌-◌, ◌≤◌, ◌≡◌, ◌↔◌, refl, Bool, true, false, not, ltb, ◌==◌, length, arith,
}
use mathlib.Core.Path.{subst, sym}
use wisp_disk.Base.Text.{Text, text}
use wisp_disk.Base.Bytes.{Bytes}
use wisp_disk.BuildTool.{BuildResult, built, refused, and_then}
use wisp_disk.BuildTool.Images.{refuse_if, field, read_at, machine_at, pe_machine_type}

-- A file with the two signatures, the second where the offset says and inside the file, and the machine
-- behind it.
pub record IsImage (file : Bytes) (machine : ℕ) : Type 0 where
  pub long_enough : 64 ≤ length file
  pub dos_signature : field 2 0 file ≡ 0x5a4d
  pub header_inside : field 4 0x3c file + 6 ≤ length file
  pub pe_signature : field 4 (field 4 0x3c file) file ≡ 0x0000_4550
  pub same_machine : field 2 (field 4 0x3c file + 4) file ≡ machine

refuse_if-eq_built :
    {A : Type 0} (test : Bool) (e : Text) (rest : BuildResult A) (a : A)
    → refuse_if test e rest ≡ built a
    → (test ≡ false) × (rest ≡ built a)
unfolding refuse_if
refuse_if-eq_built true e rest a h = cc
refuse_if-eq_built false e rest a h = (refl, h)

and_then-eq_built :
    {A B : Type 0} (m : BuildResult A) (f : A → BuildResult B) (b : B)
    → and_then m f ≡ built b
    → (a : A) × (m ≡ built a) × (f a ≡ built b)
unfolding and_then
and_then-eq_built (built a) f b h = (a, refl, h)
and_then-eq_built (refused e) f b h = cc

read_at-eq_built :
    (action path : Text) (width offset : ℕ) (file : Bytes) (n : ℕ)
    → read_at action path width offset file ≡ built n
    → field width offset file ≡ n
unfolding read_at
read_at-eq_built action path width offset file n h = ground arith

read_at-inside :
    (action path : Text) (width offset : ℕ) (file : Bytes)
    → offset + width ≤ length file
    → read_at action path width offset file ≡ built (field width offset file)
unfolding read_at
read_at-inside action path width offset file h = ground arith

machine_at_sound :
    (path : Text) (file : Bytes) (pe_offset machine : ℕ)
    → 64 ≤ length file
    → machine_at path file pe_offset ≡ built machine
    → (pe_offset + 6 ≤ length file)
      × (field 4 pe_offset file ≡ 0x0000_4550)
      × (field 2 (pe_offset + 4) file ≡ machine)
unfolding machine_at
machine_at_sound path file pe_offset machine l h =
    let (inside, h1) = refuse_if-eq_built (ltb (length file - 6) pe_offset) _ _ machine h in
    let (signature, read, h2) =
      and_then-eq_built (read_at (text "read PE signature") path 4 pe_offset file) _ machine h1 in
    let (same, h3) = refuse_if-eq_built (not (signature == 0x0000_4550)) _ _ machine h2 in
    let found = read_at-eq_built (text "read PE signature") path 4 pe_offset file signature read in
    (
      ground (arith, inside, l),
      ground (arith, same, found),
      read_at-eq_built (text "read PE machine") path 2 (pe_offset + 4) file machine h3,
    )

pe_machine_type-IsImage :
    (path : Text) (file : Bytes) (machine : ℕ)
    → pe_machine_type path file ≡ built machine
    → IsImage file machine
unfolding pe_machine_type
pe_machine_type-IsImage path file machine h =
    let (long, h1) = refuse_if-eq_built (ltb (length file) 64) _ _ machine h in
    let (word, dos, h2) =
      and_then-eq_built (read_at (text "read DOS signature") path 2 0 file) _ machine h1 in
    let (same, h3) = refuse_if-eq_built (not (word == 0x5a4d)) _ _ machine h2 in
    let (offset, read, h4) =
      and_then-eq_built (read_at (text "read PE offset") path 4 0x3c file) (machine_at path file)
        machine h3 in
    let long' : 64 ≤ length file = ground (arith, long) in
    let (inside, signature, last) = machine_at_sound path file offset machine long' h4 in
    let at = read_at-eq_built (text "read PE offset") path 4 0x3c file offset read in
    let word_read = read_at-eq_built (text "read DOS signature") path 2 0 file word dos in
    record {
      long_enough = long';
      dos_signature = ground (arith, same, word_read);
      header_inside = subst (λ o. o + 6 ≤ length file) (sym at) inside;
      pe_signature = subst (λ o. field 4 o file ≡ 0x0000_4550) (sym at) signature;
      same_machine = subst (λ o. field 2 (o + 4) file ≡ machine) (sym at) last;
    }

machine_at_complete :
    (path : Text) (file : Bytes) (pe_offset machine : ℕ)
    → pe_offset + 6 ≤ length file
    → field 4 pe_offset file ≡ 0x0000_4550
    → field 2 (pe_offset + 4) file ≡ machine
    → machine_at path file pe_offset ≡ built machine
unfolding machine_at refuse_if and_then
machine_at_complete path file pe_offset machine inside signature last =
    let first =
      read_at-inside (text "read PE signature") path 4 pe_offset file (omega (arith, inside)) in
    let second =
      read_at-inside (text "read PE machine") path 2 (pe_offset + 4) file (omega (arith, inside)) in
    ground (arith, first, second)

IsImage-pe_machine_type :
    (path : Text) (file : Bytes) (machine : ℕ)
    → IsImage file machine
    → pe_machine_type path file ≡ built machine
unfolding pe_machine_type refuse_if and_then
IsImage-pe_machine_type path file machine i =
    let dos =
      read_at-inside (text "read DOS signature") path 2 0 file (omega (arith, i.long_enough)) in
    let offset =
      read_at-inside (text "read PE offset") path 4 0x3c file (omega (arith, i.long_enough)) in
    let rest =
      machine_at_complete path file (field 4 0x3c file) machine i.header_inside i.pe_signature
        i.same_machine in
    let long = i.long_enough in
    let word = i.dos_signature in ground (arith, dos, offset, rest, long, word)

-- pe_machine_type yields a machine exactly for the files of at least 64 bytes with the DOS
-- signature, the PE signature at the offset named at 0x3C, both it and the machine behind it
-- inside the file, and this machine.
pub pe_machine_type_iff :
    (path : Text) (file : Bytes) (machine : ℕ)
    → (pe_machine_type path file ≡ built machine) ↔ IsImage file machine
pe_machine_type_iff path file machine =
    (pe_machine_type-IsImage path file machine, IsImage-pe_machine_type path file machine)
