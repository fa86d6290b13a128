-- ===== src/Http/Rounds.antt =====
-- The loop of HttpProtocol::Decode ends, whatever the parser does.
use libnbf.Prelude.{◌≡◌, Option, some, true, ◌⊎◌}
use libnbf.Buffer.{Buffer, get_reading_size}
use libnbf.Http.Decode.{HttpParser, Run, Decoded}

module _ (h : HttpParser) where
  -- What Decode ends with: a message, a failure, or an input that is used up.
  pub record Ends (r : Option (Run h)) : Type 0 where
    pub run : Run h
    pub returns : r ≡ some run
    pub outcome :
        ((m : Decoded) × (run.msg ≡ some m))
        ⊎ (run.failed ≡ true)
        ⊎ (get_reading_size run.input ≡ 0)
