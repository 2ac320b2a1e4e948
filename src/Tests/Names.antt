-- ===== src/Tests/Names.antt =====
-- An example of a name, under a Unicode database that has one control character.
use ephemeral_rooms.Prelude.{[], ◌∷◌, if◌then◌else◌, ltb, Text, arith}
use ephemeral_rooms.Util.Sanitize.{Unicode, cc, other, clean_filename}
use ephemeral_rooms.Util.Sanitize.Laws.{IsSafeName}
use ephemeral_rooms.Util.Sanitize.Filename.{clean_filename-IsSafeName}

abbrev pub some_unicode : Unicode
some_unicode = record { normalize_nfc = λ t. t; category = λ c. if ltb c 32 then cc else other }

-- "../a"
abbrev climbing : Text
climbing = 46 ∷ 46 ∷ 47 ∷ 97 ∷ []

clean_filename-IsSafeName_example :
    IsSafeName some_unicode 10 (clean_filename some_unicode climbing 10)
clean_filename-IsSafeName_example =
    clean_filename-IsSafeName some_unicode climbing 10 (λ c low high. ground arith)
