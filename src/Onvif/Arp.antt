-- ===== src/Onvif/Arp.antt =====
-- OnvifScanner::getHanwhaIpsFromArp of DeviceServer/src/OnvifScanner.cpp, over the lines of the table.
use device_app.Base.{
  ℕ, zero, suc, ◌||◌, ◌&&◌, String, List, [], ◌∷◌, Option, none, some, Bool, if◌then◌else◌, nat_eq,
  leb, ◌==◌, text_key,
}
use Prim.Native.Char.{Char, code}

-- std::isspace of the "C" locale
is_space : Char → Bool
is_space c = nat_eq (code c) 32 || (leb 9 (code c) && leb (code c) 13)

abbrev with_word : String × List String → List String
with_word (word, words) = if word == "" then words else word ∷ words

-- The word that the text begins with, and the words after it.
split_words : String → String × List String
unfolding is_space
split_words String.[] = ("", [])
split_words (String.◌∷◌ c s) =
    let (word, words) = split_words s in
    if is_space c then ("", with_word (word, words)) else (String.◌∷◌ c word, words)

-- The texts that `iss >> …` reads one after the other.
words_of : String → List String
unfolding split_words
words_of line = with_word (split_words line)

-- A field that the line does not reach stays empty.
field : ℕ → List String → String
field n [] = ""
field zero (word ∷ words) = word
field (suc n) (word ∷ words) = field n words

-- text.substr(0, n)
prefix : ℕ → String → String
prefix zero s = ""
prefix (suc n) String.[] = ""
prefix (suc n) (String.◌∷◌ c s) = String.◌∷◌ c (prefix n s)

hanwha_ips : List String → List String
unfolding words_of field prefix
hanwha_ips [] = []
hanwha_ips (line ∷ lines) =
    let words = words_of line in
    if prefix 8 (field 3 words) == "e4:30:22"
    then field 0 words ∷ hanwha_ips lines
    else hanwha_ips lines

-- The first line is the table's header.
unfoldable pub get_hanwha_ips_from_arp : Option (List String) → List String
unfolding hanwha_ips
get_hanwha_ips_from_arp none = []
get_hanwha_ips_from_arp (some []) = []
get_hanwha_ips_from_arp (some (header ∷ lines)) = hanwha_ips lines
