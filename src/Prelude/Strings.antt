-- ===== src/Prelude/Strings.antt =====
-- What the program does with texts: join, sorted, strip, split, and the line ends of text files.
use Prim.Native.Nat.{ℕ, Ordering}
use Prim.Native.Char.{Char, code}
use Prim.Native.String
use Prim.Native.String.{String, ◌++◌ as ◌<>◌}
use mathlib.Core.Bool.{Bool, true, false, ◌&&◌, ◌||◌}
use mathlib.Core.List.{List, [], ◌∷◌}
use db_version_control.Prelude.Tests.{if◌then◌else◌, nat_beq, leb}

-- The characters, by their code points.
abbrev pub codes : String → List ℕ
codes String.[] = []
codes (String.◌∷◌ c s) = code c ∷ codes s

-- sep.join(parts)
unfoldable pub join : String → List String → String
join sep [] = ""
join sep (x ∷ []) = x
join sep (x ∷ y ∷ ys) = x <> (sep <> join sep (y ∷ ys))

-- Order by code points.
abbrev pub str_leb : String → String → Bool
str_leb a b = elim (String.compare a b) [ Ordering.gt ↦ false | _ ↦ true ]

unfoldable pub insert_sorted : String → List String → List String
insert_sorted a [] = a ∷ []
insert_sorted a (b ∷ bs) =
    let rest = insert_sorted a bs in if str_leb a b then a ∷ b ∷ bs else b ∷ rest

unfoldable pub sorted : List String → List String
sorted [] = []
sorted (a ∷ more) = insert_sorted a (sorted more)

-- c.isspace(): what strip() takes away.
abbrev is_space : Char → Bool
is_space c =
    let n = code c in
    (leb 9 n && leb n 13)
    || ((leb 28 n && leb n 32)
        || (nat_beq n 133
            || (nat_beq n 160
                || (nat_beq n 5760
                    || ((leb 8192 n && leb n 8202)
                        || (nat_beq n 8232
                            || (nat_beq n 8233
                                || (nat_beq n 8239 || (nat_beq n 8287 || nat_beq n 12288)))))))))

unfoldable lstrip : String → String
lstrip String.[] = ""
lstrip (String.◌∷◌ c s) = let rest = lstrip s in if is_space c then rest else String.◌∷◌ c s

abbrev strip_end : Char → String → String
strip_end c String.[] = if is_space c then "" else String.◌∷◌ c ""
strip_end c (String.◌∷◌ d s) = String.◌∷◌ c (String.◌∷◌ d s)

unfoldable rstrip : String → String
rstrip String.[] = ""
rstrip (String.◌∷◌ c s) = strip_end c (rstrip s)

-- text.strip()
unfoldable pub strip : String → String
unfolding lstrip rstrip
strip s = rstrip (lstrip s)

abbrev add_to_first : Char → List String → List String
add_to_first c [] = String.◌∷◌ c "" ∷ []
add_to_first c (part ∷ parts) = String.◌∷◌ c part ∷ parts

-- text.split(",")
unfoldable pub split_commas : String → List String
split_commas String.[] = "" ∷ []
split_commas (String.◌∷◌ c s) =
    let parts = split_commas s in if nat_beq (code c) b',' then "" ∷ parts else add_to_first c parts

-- The flag says that the character before was a carriage return, which has been read as a line end.
unfoldable newlines : Bool → String → String
newlines after String.[] = ""
newlines after (String.◌∷◌ c s) =
    let same = newlines false s in
    let ended = newlines true s in
    if nat_beq (code c) b'\r'
    then String.◌∷◌ "\n" ended
    else if after && nat_beq (code c) b'\n'
    then same
    else String.◌∷◌ c same

-- What read_text gives for the content of a file.
unfoldable pub read_text : String → String
unfolding newlines
read_text content = newlines false content
