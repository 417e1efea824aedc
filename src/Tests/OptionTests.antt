-- ===== src/Tests/OptionTests.antt =====
-- A libzmq that accepts every option, and one that answers 30 or its bytes.
use zmqpp_pty.Base.{true, [], ◌∷◌, pos, negsuc, Bytes}
use zmqpp_pty.Socket.Options.{SocketOption, Payload, Sort}
use zmqpp_pty.Socket.Options.Setters.{Net, set_int, set_bool, set_uint64, set_int64, set_string}
use zmqpp_pty.Socket.Options.Getters.{Source, filled}
use zmqpp_pty.Socket.Options.Calls.{IsSetting, set-IsSetting}

abbrev willing : Net
willing o p = 0

abbrev keeping : Payload → Source
keeping p o s = filled p

set-IsSetting_example :
    IsSetting willing SocketOption.linger (set_int willing SocketOption.linger (negsuc 0))
    × IsSetting willing SocketOption.linger (set_bool willing SocketOption.linger true)
    × IsSetting willing SocketOption.linger (set_uint64 willing SocketOption.linger 3)
    × IsSetting willing SocketOption.linger (set_int64 willing SocketOption.linger (pos 4))
    × IsSetting willing SocketOption.linger (set_string willing SocketOption.linger (65 ∷ []))
set-IsSetting_example =
    set-IsSetting willing SocketOption.linger (negsuc 0) (pos 4) true 3 (65 ∷ [])

abbrev linger_30 : Source
linger_30 = keeping (Payload.int (pos 30))

abbrev only_linger : Source
only_linger o Sort.int = filled (Payload.int (pos 30))
only_linger o _ = filled (Payload.bytes [])

abbrev cut_bytes : Bytes
cut_bytes = 65 ∷ 0 ∷ 66 ∷ []
