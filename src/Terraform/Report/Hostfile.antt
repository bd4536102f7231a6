-- ===== src/Terraform/Report/Hostfile.antt =====
-- What a reader of `/etc/hosts` makes of the snippet that `--hostfile` prints.
use mathlib.Core.Path.{subst}
use package.text.Mathlib.TextLemmas.{append-nil}
use Prim.Native.String.append
use factory_pattern_design.Base.{
  ℕ, zero, suc, ◌-◌, String, ◌<>◌, code, Bool, false, ◌≡◌, refl, sym, ◌∙◌, ap, Option, none, some,
  List, [], ◌∷◌, ◌++◌, ◌==◌, if◌then◌else◌, arith, All,
}
use factory_pattern_design.Base.Text.{contains_char, rstrip, split}
use factory_pattern_design.Base.Text.Laws.{split-join, has_space, rstrip-append}
use factory_pattern_design.Base.Decimal.Laws.{contains_char-append}
use factory_pattern_design.Base.Result.{ok, bind-eq-ok, ok-injective}
use factory_pattern_design.Base.Generator.{Generator, finished, failed, yields, drain}
use factory_pattern_design.Yaml.{Value, str, lookup, text}
use factory_pattern_design.Terraform.Parse.{split_once}
use factory_pattern_design.Terraform.Parse.Laws.{split_once-char}
use factory_pattern_design.Terraform.Attributes.{raw}
use factory_pattern_design.Terraform.Query.{Host}
use factory_pattern_design.Terraform.Report.{
  spaces, count_characters, ljust, host_lines, query_hostfile, hostfile, hosts_text, World,
  floating_ips, queried_hosts, answer, main,
}

abbrev is_comment : String → Bool
is_comment String.[] = false
is_comment (String.◌∷◌ c s) = code c == b'#'

abbrev entry : Option (String × String) → List (String × String) → List (String × String)
entry none entries = entries
entry (some (address, name)) entries = (rstrip address, name) ∷ entries

-- The addresses and the names behind a tab in the lines that are no comments.
unfoldable pub entries_of : List String → List (String × String)
entries_of [] = []
entries_of (line ∷ lines) =
    let entries = entries_of lines in
    if is_comment line then entries else entry (split_once 9 line) entries

unfoldable pub read_snippet : String → List (String × String)
read_snippet s = entries_of (split 10 s)

rstrip-spaces : (n : ℕ) → rstrip (spaces n) ≡ ""
unfolding rstrip spaces
rstrip-spaces zero = refl
rstrip-spaces (suc n) = rw (rstrip-spaces n) refl

contains_char-spaces : (k n : ℕ) → (32 == k) ≡ false → contains_char k (spaces n) ≡ false
unfolding contains_char spaces
contains_char-spaces k zero e = refl
contains_char-spaces k (suc n) e = rw (e, contains_char-spaces k n e) refl

rstrip-ljust : (width : ℕ) (a : String) → has_space a ≡ false → rstrip (ljust width a) ≡ a
unfolding ljust
rstrip-ljust width a h =
    rstrip-append a (spaces (width - count_characters a)) h
    ∙ rw (rstrip-spaces (width - count_characters a)) (append-nil a)

contains_char-ljust :
    (k width : ℕ) (a : String)
    → (32 == k) ≡ false
    → contains_char k a ≡ false
    → contains_char k (ljust width a) ≡ false
unfolding ljust
contains_char-ljust k width a e h =
    contains_char-append k a (spaces (width - count_characters a))
    ∙ rw (h, contains_char-spaces k (width - count_characters a) e) refl

-- A text without blanks has no tab and no end of a line.
no_blank :
    (s : String) → has_space s ≡ false → (contains_char 9 s ≡ false) × (contains_char 10 s ≡ false)
unfolding has_space contains_char
no_blank String.[] h = (refl, refl)
no_blank (String.◌∷◌ c s) h = ground (arith, no_blank s)

-- The line of a host.
abbrev line_of : String → String → String
line_of a name = ljust 16 a <> String.◌∷◌ "\t" name

is_comment-spaces : (n : ℕ) (name : String) → is_comment (spaces n <> String.◌∷◌ "\t" name) ≡ false
unfolding spaces
is_comment-spaces zero name = rw append.nil refl
is_comment-spaces (suc n) name = rw append.cons refl

is_comment-line :
    (a name : String) → contains_char b'#' a ≡ false → is_comment (line_of a name) ≡ false
unfolding ljust contains_char spaces count_characters
is_comment-line String.[] name h = is_comment-spaces 16 name
is_comment-line (String.◌∷◌ c s) name h = rw (append.cons, append.cons) (ground arith)

-- A host with this address and this name, which can stand in a line.
abbrev pub IsEntry : Host → String × String → Type 0
IsEntry host (address, name) =
    (host.name ≡ name)
    × (lookup "ansible_host" host.attrs ≡ some (str address))
    × (has_space address ≡ false)
    × (contains_char b'#' address ≡ false)
    × (contains_char 10 name ≡ false)

-- The addresses and the names of the hosts, in order.
abbrev pub AreEntries : List Host → List (String × String) → Type 0
AreEntries [] [] = Unit
AreEntries (host ∷ hosts) (pair ∷ pairs) = IsEntry host pair × AreEntries hosts pairs
AreEntries _ _ = ⊥

abbrev lines_of : List (String × String) → List String
lines_of [] = []
lines_of ((address, name) ∷ pairs) = line_of address name ∷ lines_of pairs

raw-there :
    (key : String) (host : Host) (v : Value)
    → lookup key host.attrs ≡ some v
    → raw key host.attrs ≡ ok v
unfolding raw
raw-there key host v e = rw e refl

host_lines-yields :
    (host : Host) (gen : Generator Host) (later : List Host) (pairs : List (String × String))
    → ((others : List (String × String))
        → AreEntries later others
        → host_lines gen ≡ ok (lines_of others))
    → AreEntries (host ∷ later) pairs
    → host_lines (yields host gen) ≡ ok (lines_of pairs)
unfolding host_lines text
host_lines-yields host gen later [] ih h = absurd h
host_lines-yields host gen later ((a, name) ∷ pairs) ih ((named, there, _, _, _), h) =
    rw (raw-there "ansible_host" host (str a) there, ih pairs h, named) refl

host_lines-lines_of :
    (gen : Generator Host) (hosts : List Host) (pairs : List (String × String))
    → drain gen ≡ ok hosts
    → AreEntries hosts pairs
    → host_lines gen ≡ ok (lines_of pairs)
unfolding host_lines drain
host_lines-lines_of finished hosts [] e h = refl
host_lines-lines_of finished hosts (pair ∷ pairs) e h =
    absurd (subst (λ x. AreEntries x (pair ∷ pairs)) (sym (ok-injective e)) h)
host_lines-lines_of (failed x) hosts pairs e h = cc
host_lines-lines_of (yields host gen) hosts pairs e h =
    let (later, found, same) = bind-eq-ok (drain gen) _ e in
    host_lines-yields host gen later pairs
      (λ others k. host_lines-lines_of gen later others found k)
      (subst (λ x. AreEntries x pairs) (sym (ok-injective same)) h)

-- The lines are lines, and are read back.
lines_of-read :
    (hosts : List Host) (pairs : List (String × String)) (rest : List String)
    → AreEntries hosts pairs
    → All (λ v. contains_char 10 v ≡ false) rest
    → entries_of rest ≡ []
    → All (λ v. contains_char 10 v ≡ false) (lines_of pairs ++ rest)
      × (entries_of (lines_of pairs ++ rest) ≡ pairs)
unfolding entries_of
lines_of-read [] [] rest h k e = (k, e)
lines_of-read [] (pair ∷ pairs) rest h k e = absurd h
lines_of-read (host ∷ hosts) [] rest h k e = absurd h
lines_of-read (host ∷ hosts) ((a, name) ∷ pairs) rest ((_, _, tight, plain, flat), h) k e =
    let (below, read) = lines_of-read hosts pairs rest h k e in
    let (no_tab, no_end) = no_blank a tight in
    (
      (
        contains_char-append 10 (ljust 16 a) (String.◌∷◌ "\t" name)
            ∙ rw (contains_char-ljust 10 16 a refl no_end) (unfold contains_char in flat),
        below,
      ),
      rw
          (
            is_comment-line a name plain,
            split_once-char 9 (ljust 16 a) name "\t" (contains_char-ljust 9 16 a refl no_tab) refl,
            rstrip-ljust 16 a tight,
            read,
          )
          refl,
    )

-- If the state files can be read, and each host has a name without an end of a line and an address
-- without a blank and without a `#`, then `--hostfile` prints a snippet, the lines of which, but the
-- comments, have exactly the addresses and the names of the hosts, in order.
pub main-hostfile :
    (world : World) (ips : List (String × Value)) (hosts : List Host)
    (pairs : List (String × String))
    → floating_ips world ≡ ok ips
    → drain (queried_hosts world ips) ≡ ok hosts
    → AreEntries hosts pairs
    → (s : String) × (main world hostfile ≡ ok (hosts_text s)) × (read_snippet s ≡ pairs)
unfolding main answer query_hostfile read_snippet entries_of
main-hostfile world ips hosts pairs p q h =
    let footer : List String = "## end hosts generated by terraform.py ##" ∷ [] in
    let (flat, read) =
      lines_of-read hosts pairs footer h (unfold contains_char in (refl, tt)) refl in
    (
      _,
      rw (p, host_lines-lines_of (queried_hosts world ips) hosts pairs q h) refl,
      ap entries_of (
            split-join 10 "\n" "## begin hosts generated by terraform.py ##"
              (lines_of pairs ++ footer) refl (unfold contains_char in (refl, flat)))
          ∙ read,
    )
