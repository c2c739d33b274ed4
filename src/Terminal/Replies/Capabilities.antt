-- ===== src/Terminal/Replies/Capabilities.antt =====
-- The terminal's capabilities: the table of `LookupGhosttyXTGetTCap`, and its search.
use Prim.Native.String.{String}
use fish_term.Prelude.{
  ℕ, zero, suc, ◌≡◌, refl, Bool, true, false, ◌&&◌, List, [], ◌∷◌, Option, none, some, get_elem?,
  Bytes, codes, eqb_bytes, eqb_bytes_refl, not, arith, if◌then◌else◌,
}

-- `XTGetTCapEntry`
pub record Capability : Type 0 where
  pub name : Bytes
  pub value : Bytes
  pub has_value : Bool

abbrev cap : String → String → Bool → Capability
cap name value has_value = record { name = codes name; value = codes value; has_value = has_value }

-- `kEntries`
unfoldable pub entries : List Capability
entries =
    cap "TN" "xterm-ghostty" true
    ∷ cap "Co" "256" true
    ∷ cap "RGB" "8" true
    ∷ cap "AX" "" false
    ∷ cap "Tc" "" false
    ∷ cap "Su" "" false
    ∷ cap "XT" "" false
    ∷ cap "fullkbd" "" false
    ∷ cap "bce" "" false
    ∷ cap "ccc" "" false
    ∷ cap "hs" "" false
    ∷ cap "km" "" false
    ∷ cap "mc5i" "" false
    ∷ cap "mir" "" false
    ∷ cap "msgr" "" false
    ∷ cap "npc" "" false
    ∷ cap "xenl" "" false
    ∷ cap "colors" "256" true
    ∷ cap "cols" "80" true
    ∷ cap "it" "8" true
    ∷ cap "lines" "24" true
    ∷ cap "pairs" "32767" true
    ∷ cap "acsc" "++\\,\\,--..00``aaffgghhiijjkkllmmnnooppqqrrssttuuvvwwxxyyzz{{||}}~~" true
    ∷ cap "Smulx" "\\E[4:%p1%dm" true
    ∷ cap "Setulc" "\\E[58:2::%p1%{65536}%/%d:%p1%{256}%/%{255}%&%d:%p1%{255}%&%d%;m" true
    ∷ cap "Ss" "\\E[%p1%d q" true
    ∷ cap "Se" "\\E[2 q" true
    ∷ cap "Ms" "\\E]52;%p1%s;%p2%s\\007" true
    ∷ cap "Sync" "\\E[?2026%?%p1%{1}%-%tl%eh%;" true
    ∷ cap "BD" "\\E[?2004l" true
    ∷ cap "BE" "\\E[?2004h" true
    ∷ cap "PS" "\\E[200~" true
    ∷ cap "PE" "\\E[201~" true
    ∷ cap "XM" "\\E[?1006;1000%?%p1%{1}%=%th%el%;" true
    ∷ cap "xm" "\\E[<%i%p3%d;%p1%d;%p2%d;%?%p4%tM%em%;" true
    ∷ cap "RV" "\\E[>c" true
    ∷ cap "rv" "\\E\\\\[[0-9]+;[0-9]+;[0-9]+c" true
    ∷ cap "XR" "\\E[>0q" true
    ∷ cap "xr" "\\EP>\\\\|[ -~]+a\\E\\\\" true
    ∷ cap "Enmg" "\\E[?69h" true
    ∷ cap "Dsmg" "\\E[?69l" true
    ∷ cap "Clmg" "\\E[s" true
    ∷ cap "Cmg" "\\E[%i%p1%d;%p2%ds" true
    ∷ cap "clear" "\\E[H\\E[2J" true
    ∷ cap "E3" "\\E[3J" true
    ∷ cap "fe" "\\E[?1004h" true
    ∷ cap "fd" "\\E[?1004l" true
    ∷ cap "kxIN" "\\E[I" true
    ∷ cap "kxOUT" "\\E[O" true
    ∷ cap "bel" "^G" true
    ∷ cap "blink" "\\E[5m" true
    ∷ cap "bold" "\\E[1m" true
    ∷ cap "cbt" "\\E[Z" true
    ∷ cap "civis" "\\E[?25l" true
    ∷ cap "cnorm" "\\E[?12l\\E[?25h" true
    ∷ cap "cr" "\\r" true
    ∷ cap "csr" "\\E[%i%p1%d;%p2%dr" true
    ∷ cap "cub" "\\E[%p1%dD" true
    ∷ cap "cub1" "^H" true
    ∷ cap "cud" "\\E[%p1%dB" true
    ∷ cap "cud1" "^J" true
    ∷ cap "cuf" "\\E[%p1%dC" true
    ∷ cap "cuf1" "\\E[C" true
    ∷ cap "cup" "\\E[%i%p1%d;%p2%dH" true
    ∷ cap "cuu" "\\E[%p1%dA" true
    ∷ cap "cuu1" "\\E[A" true
    ∷ cap "cvvis" "\\E[?12;25h" true
    ∷ cap "dch" "\\E[%p1%dP" true
    ∷ cap "dch1" "\\E[P" true
    ∷ cap "dim" "\\E[2m" true
    ∷ cap "dl" "\\E[%p1%dM" true
    ∷ cap "dl1" "\\E[M" true
    ∷ cap "dsl" "\\E]2;\\007" true
    ∷ cap "ech" "\\E[%p1%dX" true
    ∷ cap "ed" "\\E[J" true
    ∷ cap "el" "\\E[K" true
    ∷ cap "el1" "\\E[1K" true
    ∷ cap "flash" "\\E[?5h$<100/>\\E[?5l" true
    ∷ cap "fsl" "^G" true
    ∷ cap "home" "\\E[H" true
    ∷ cap "hpa" "\\E[%i%p1%dG" true
    ∷ cap "ht" "^I" true
    ∷ cap "hts" "\\EH" true
    ∷ cap "ich" "\\E[%p1%d@" true
    ∷ cap "ich1" "\\E[@" true
    ∷ cap "il" "\\E[%p1%dL" true
    ∷ cap "il1" "\\E[L" true
    ∷ cap "ind" "\\n" true
    ∷ cap "indn" "\\E[%p1%dS" true
    ∷ cap "initc"
        "\\E]4;%p1%d;rgb\\:%p2%{255}%*%{1000}%/%2.2X/%p3%{255}%*%{1000}%/%2.2X/%p4%{255}%*%{1000}%/%2.2X\\E\\\\"
        true
    ∷ cap "invis" "\\E[8m" true
    ∷ cap "oc" "\\E]104\\007" true
    ∷ cap "op" "\\E[39;49m" true
    ∷ cap "query-os-name" "HarmonyOS" true
    ∷ cap "rc" "\\E8" true
    ∷ cap "rep" "%p1%c\\E[%p2%{1}%-%db" true
    ∷ cap "rev" "\\E[7m" true
    ∷ cap "ri" "\\EM" true
    ∷ cap "rin" "\\E[%p1%dT" true
    ∷ cap "ritm" "\\E[23m" true
    ∷ cap "rmacs" "\\E(B" true
    ∷ cap "rmam" "\\E[?7l" true
    ∷ cap "rmcup" "\\E[?1049l" true
    ∷ cap "rmir" "\\E[4l" true
    ∷ cap "rmkx" "\\E[?1l\\E>" true
    ∷ cap "rmso" "\\E[27m" true
    ∷ cap "rmul" "\\E[24m" true
    ∷ cap "rmxx" "\\E[29m" true
    ∷ cap "setab" "\\E[%?%p1%{8}%<%t4%p1%d%e%p1%{16}%<%t10%p1%{8}%-%d%e48;5;%p1%d%;m" true
    ∷ cap "setaf" "\\E[%?%p1%{8}%<%t3%p1%d%e%p1%{16}%<%t9%p1%{8}%-%d%e38;5;%p1%d%;m" true
    ∷ cap "setrgbb" "\\E[48:2:%p1%d:%p2%d:%p3%dm" true
    ∷ cap "setrgbf" "\\E[38:2:%p1%d:%p2%d:%p3%dm" true
    ∷ cap "sgr"
        "%?%p9%t\\E(0%e\\E(B%;\\E[0%?%p6%t;1%;%?%p5%t;2%;%?%p2%t;4%;%?%p1%p3%|%t;7%;%?%p4%t;5%;%?%p7%t;8%;m"
        true
    ∷ cap "sgr0" "\\E(B\\E[m" true
    ∷ cap "sitm" "\\E[3m" true
    ∷ cap "smacs" "\\E(0" true
    ∷ cap "smam" "\\E[?7h" true
    ∷ cap "smcup" "\\E[?1049h" true
    ∷ cap "smir" "\\E[4h" true
    ∷ cap "smkx" "\\E[?1h\\E=" true
    ∷ cap "smso" "\\E[7m" true
    ∷ cap "smul" "\\E[4m" true
    ∷ cap "smxx" "\\E[9m" true
    ∷ cap "tbc" "\\E[3g" true
    ∷ cap "tsl" "\\E]2;" true
    ∷ cap "u6" "\\E[%i%d;%dR" true
    ∷ cap "u7" "\\E[6n" true
    ∷ cap "u8" "\\E[?%[;0123456789]c" true
    ∷ cap "u9" "\\E[c" true
    ∷ cap "vpa" "\\E[%i%p1%dd" true
    ∷ []

-- The loop over the table.
unfoldable pub find_entry : Bytes → List Capability → Option Capability
find_entry key [] = none
find_entry key (e ∷ es) = if eqb_bytes e.name key then some e else find_entry key es

-- `LookupGhosttyXTGetTCap`
unfoldable pub lookup_capability : Bytes → Option Capability
unfolding find_entry entries
lookup_capability key = find_entry key entries

absent : Bytes → List Capability → Bool
absent key [] = true
absent key (e ∷ es) = not (eqb_bytes key e.name) && absent key es

-- No two entries have the same name.
unique : List Capability → Bool
unfolding absent
unique [] = true
unique (e ∷ es) = absent e.name es && unique es

absent-get_elem? :
    (key : Bytes) (i : ℕ) (e : Capability) (es : List Capability)
    → absent key es ≡ true
    → get_elem? es i ≡ some e
    → eqb_bytes key e.name ≡ false
unfolding absent
absent-get_elem? key i e [] a g = cc
absent-get_elem? key zero e (d ∷ es) a g = ground arith
absent-get_elem? key (suc i) e (d ∷ es) a g = absent-get_elem? key i e es (ground arith) g

find_entry-unique :
    (i : ℕ) (e : Capability) (es : List Capability)
    → unique es ≡ true
    → get_elem? es i ≡ some e
    → find_entry e.name es ≡ some e
unfolding unique find_entry
find_entry-unique i e [] u g = cc
find_entry-unique zero e (d ∷ es) u g = ground (arith, eqb_bytes_refl e.name)
find_entry-unique (suc i) e (d ∷ es) u g =
    let other = absent-get_elem? d.name i e es (ground arith) g in
    rw other (find_entry-unique i e es (ground arith) g)

unique-entries : unique entries ≡ true
unfolding unique entries
unique-entries = refl

-- Every entry of the table is found under its name, with its value.
pub lookup_capability-entries :
    (i : ℕ) (e : Capability) → get_elem? entries i ≡ some e → lookup_capability e.name ≡ some e
unfolding lookup_capability
lookup_capability-entries i e g = find_entry-unique i e entries unique-entries g
