-- ===== src/Tests/Streams.antt =====
-- Names of streams and windows of reads in KurrentDB.
use python_event_sourcery.Prelude.{some, [], ◌∷◌, ◌≡◌, refl, arith}
use python_event_sourcery.Errors.{ok}
use python_event_sourcery.Event.Json.{pos}
use python_event_sourcery.Kurrent.{
  Text, HexLibrary, StreamName, as_string, snapshot_name, from_stream_name, scope,
}
use python_event_sourcery.Kurrent.Names.{IsHex, from_stream_name-as_string}
use python_event_sourcery.Kurrent.Scope.{scope_lem}

-- One UUID, written "1".
abbrev one_id : HexLibrary
one_id = record { hex = λ u. 49 ∷ []; from_hex = λ t. ok 1 }

-- The tenant "t" and the category "o".
abbrev orders : StreamName
orders = record { tenant_id = 116 ∷ []; category = 111 ∷ []; uuid = 1 }

one_id-IsHex : IsHex one_id 1
one_id-IsHex = record { no_dash = refl; no_word = refl; read_back = refl }

stream_named_back :
    (from_stream_name one_id (111 ∷ 45 ∷ 116 ∷ 45 ∷ 49 ∷ []) ≡ ok orders)
    × ((t : Text) → snapshot_name one_id orders ≡ ok t → from_stream_name one_id t ≡ ok orders)
unfolding as_string
stream_named_back =
    from_stream_name-as_string one_id orders one_id-IsHex (111 ∷ 45 ∷ 116 ∷ 45 ∷ 49 ∷ []) refl

two_versions : scope (some 2) (some 4) ≡ (some 1, pos 2)
two_versions = scope_lem 2 4 (omega arith) (omega arith) (omega arith)
