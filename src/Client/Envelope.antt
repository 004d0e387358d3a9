-- ===== src/Client/Envelope.antt =====
-- `build_envelope` of app/ubki_client.py.
use Prim.Native.String.{◌++◌ as ◌<>◌}
use ubki_uploader.Prelude.{String}
use ubki_uploader.Python.Strip.{strip}

-- REQTYPE_UPDATE, REQREASON_TRANSMISSION
abbrev pub reqtype_update : String
reqtype_update = "u"

abbrev pub reqreason_transmission : String
reqreason_transmission = "0"

unfoldable pub build_envelope : (raw_line reqidout : String) → String
build_envelope raw_line reqidout =
    "{\"reqtype\":\""
    <> (reqtype_update
        <> ("\",\"reqidout\":\""
            <> (reqidout
                <> ("\",\"reqreason\":\""
                    <> (reqreason_transmission
                        <> ("\",\"data\":{\"fo_cki\":" <> (strip raw_line <> "}}")))))))
