-- ===== src/Examples/Files.antt =====
-- An example of a file of keys.
use llm_pico.Common.{refl, false, [], ◌≡◌, ◌&&◌, ◌∷◌, List}
use llm_pico.Common.Bytes.{bytes_eq, Bytes, codes}
use llm_pico.Common.Text.{drop_empty, split, trim_space, trim_right, trim_left}
use llm_pico.KeysEnv.{
  Parsed, before_comment, cut, split_list, before_last, unquote, ends_in_key, upstream_name,
  set_key, without_comment, assign_name, parse_pair, parse_text, is_empty, parse_from, parse, File,
}
use llm_pico.KeysEnv.Sound.{IsUsable, parse-IsUsable}

abbrev key_lines : List Bytes
key_lines =
    codes "# clients"
    ∷ codes "PROXY_KEYS= one, ,two # both"
    ∷ codes "OPENAI_1_KEY='sk-1'"
    ∷ codes "HOME=/root"
    ∷ []

abbrev key_file : File
key_file = record {
  proxy_keys = codes "one" ∷ codes "two" ∷ [];
  keys = (codes "OPENAI_1_KEY", codes "sk-1") ∷ [];
}

parsed_lines : parse key_lines ≡ Parsed.file key_file
unfolding parse parse_from parse_text parse_pair assign_name without_comment set_key upstream_name
    ends_in_key unquote before_last split_list drop_empty split cut before_comment trim_space
    trim_right trim_left bytes_eq
parsed_lines = refl

parse-IsUsable_example :
    IsUsable key_file × ((is_empty key_file.proxy_keys && is_empty key_file.keys) ≡ false)
parse-IsUsable_example = parse-IsUsable key_lines key_file parsed_lines
