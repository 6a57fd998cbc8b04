-- ===== src/Blocklist/Parser.antt =====
-- internal/blocklist/parser: the two list formats and their registry. An entry is its domain, which is
-- all that Parse fills in beside the time.
use phantomcore.Base.{
  ℕ, ◌*◌, Bool, true, false, ◌||◌, ◌&&◌, Option, none, some, List, [], ◌∷◌, ◌++◌, leb, length, ◌==◌,
  Text, text, is_empty, is_space, same_text, has_prefix, to_lower, trim_space, trim_dot, split_at,
  contains_byte, text_discrete, if◌then◌else◌,
}

-- The `\r` that bufio.ScanLines drops before a line feed.
unfoldable pub strip_return : Text → Text
strip_return [] = []
strip_return (c ∷ []) = if c == 13 then [] else c ∷ []
strip_return (c ∷ d ∷ s) = c ∷ strip_return (d ∷ s)

-- The lines among the pieces between line feeds: the last one counts when it is not empty, and a
-- line as long as the buffer stops the scan with an error.
unfoldable pub scan_pieces : ℕ → List Text → List Text × Bool
unfolding strip_return
scan_pieces limit [] = ([], false)
scan_pieces limit (l ∷ []) =
    if is_empty l
    then ([], false)
    else if leb limit (length l)
    then ([], true)
    else (strip_return l ∷ [], false)
scan_pieces limit (l ∷ m ∷ ls) =
    let (lines, failed) = scan_pieces limit (m ∷ ls) in
    if leb limit (length l) then ([], true) else (strip_return l ∷ lines, failed)

-- The loop `for s.Scan()` of a bufio.Scanner with a buffer of `limit` bytes, and `s.Err() != nil`.
unfoldable pub scan_lines : ℕ → Text → List Text × Bool
unfolding scan_pieces
scan_lines limit bytes = scan_pieces limit (split_at 10 bytes)

-- The text up to the first space or tab.
unfoldable pub first_word : Text → Text
first_word [] = []
first_word (c ∷ s) = let rest = first_word s in if c == 32 || c == 9 then [] else c ∷ rest

-- `strings.TrimPrefix(line, "*.")`
unfoldable pub trim_star : Text → Text
trim_star [] = []
trim_star (c ∷ []) = c ∷ []
trim_star (c ∷ d ∷ s) = if c == b'*' && d == b'.' then s else c ∷ d ∷ s

-- `strings.ContainsAny(d, "/\\ ")`
unfoldable pub has_path_byte : Text → Bool
unfolding contains_byte
has_path_byte d = contains_byte b'/' d || contains_byte 92 d || contains_byte 32 d

unfoldable pub is_comment : Text → Bool
unfolding has_prefix
is_comment line =
    is_empty line
    || has_prefix line (text "#")
    || has_prefix line (text ";")
    || has_prefix line (text "!")

-- One round of `DomainsParser.Parse`.
unfoldable pub domain_of_line : Text → Option Text
unfolding is_comment first_word trim_star has_path_byte
domain_of_line raw =
    let line = trim_space raw in
    let domain = to_lower (trim_dot (trim_star (first_word line))) in
    if is_comment line
    then none
    else if is_empty domain || has_path_byte domain
    then none
    else some domain

-- `strings.Fields`, with the word that is being read.
unfoldable pub fields_from : Text → Text → List Text
fields_from word [] = if is_empty word then [] else word ∷ []
fields_from word (c ∷ s) =
    let split = fields_from [] s in
    let longer = fields_from (word ++ c ∷ []) s in
    if is_space c then if is_empty word then split else word ∷ split else longer

unfoldable pub fields : Text → List Text
unfolding fields_from
fields s = fields_from [] s

unfoldable pub is_sink_address : Text → Bool
unfolding text_discrete
is_sink_address ip =
    same_text ip (text "0.0.0.0") || same_text ip (text "127.0.0.1") || same_text ip (text "::1")

-- The words of a line of a hosts file: an address, a name, and what follows.
unfoldable pub host_of_fields : List Text → Option Text
unfolding is_sink_address
host_of_fields [] = none
host_of_fields (ip ∷ []) = none
host_of_fields (ip ∷ name ∷ more) =
    if is_sink_address ip then some (to_lower (trim_dot name)) else none

-- One round of `HostsParser.Parse`.
unfoldable pub host_of_line : Text → Option Text
unfolding fields host_of_fields has_prefix
host_of_line raw =
    let line = trim_space raw in
    if is_empty line || has_prefix line (text "#") then none else host_of_fields (fields line)

-- The entries of the lines that have one.
unfoldable pub collect : (Text → Option Text) → List Text → List Text
collect entry [] = []
collect entry (l ∷ ls) =
    let rest = collect entry ls in elim (entry l) [ none ↦ rest | some d ↦ d ∷ rest ]

-- A parser: the entries, and whether there was an error.
abbrev pub Parser : Type 0
Parser = Text → List Text × Bool

-- `DomainsParser.Parse`
unfoldable pub parse_domains : Parser
unfolding scan_lines collect domain_of_line
parse_domains bytes =
    let (lines, failed) = scan_lines (1024 * 1024) bytes in (collect domain_of_line lines, failed)

-- `HostsParser.Parse`
unfoldable pub parse_hosts : Parser
unfolding scan_lines collect host_of_line
parse_hosts bytes =
    let (lines, failed) = scan_lines (64 * 1024) bytes in (collect host_of_line lines, failed)

-- `Get` on the registry that the two `init` functions fill
unfoldable pub get_parser : Text → Option Parser
unfolding text_discrete
get_parser format =
    if same_text format (text "domains")
    then some parse_domains
    else if same_text format (text "hosts")
    then some parse_hosts
    else none
