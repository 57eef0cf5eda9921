-- ===== src/Examples/Content.antt =====
-- Values, rich data and file content on example inputs.
use piace.Base.{true, false, none, some, [], ◌≡◌, refl, string_eq}
use piace.Model.Value.{Value, str, num, arr, obj, nil, cons, end, field, at, get}
use piace.Model.Value.Equal.{deep_equal, HasDistinctKeys, deep_equal_refl}
use piace.Model.Pcore.{contains_rich}
use piace.FileContent.{ok, err, EvidenceError, Retriever, Side, DigestEvidence, parameters}
use piace.FileContent.Digest.{validate_digest, resolve_side}
use piace.FileContent.Digest.Laws.{resolve_side-historical}
use piace.FileContent.Evidence.{resolve_file_content_evidence}
use piace.FileContent.Evidence.Laws.{IsQuiet, resolve_file_content_evidence-IsQuiet}
use piace.Examples.Data.{resource, motd, historical, live, side, fixed_hash, options}

abbrev md5 : DigestEvidence
md5 = record { algorithm = "md5"; digest = "0123456789abcdef0123456789abcdef" }

md5_accepted : validate_digest "MD5" "{md5}0123456789ABCDEF0123456789abcdef" ≡ ok md5
unfolding validate_digest
md5_accepted = refl

short_refused : validate_digest "md5" "0123" ≡ err EvidenceError.invalid_checksum
unfolding validate_digest
short_refused = refl

abbrev fetch : Retriever
fetch reference rc = ok md5

abbrev sourced : Side
sourced = side historical (resource motd (field "source" (str "puppet:///modules/a/b") end) [])

abbrev live_sourced : Side
live_sourced = side live (resource motd (field "source" (str "puppet:///modules/a/b") end) [])

fetched : (resolve_side fixed_hash "web1" live_sourced (some fetch)).evidence ≡ ok md5
unfolding resolve_side
fetched = refl

resolve_side-historical_example :
    resolve_side fixed_hash "web1" sourced (some fetch)
    ≡ resolve_side fixed_hash "web1" sourced none
resolve_side-historical_example =
    resolve_side-historical fixed_hash "web1" sourced (some fetch) refl

source_same :
    deep_equal
      (at "source" (parameters live_sourced.resource))
      (at "source" (parameters live_sourced.resource))
    ≡ true
unfolding deep_equal parameters
source_same = refl

resolve_file_content_evidence-IsQuiet_example :
    IsQuiet
      (resolve_file_content_evidence fixed_hash options "web1" motd live_sourced live_sourced
        (some fetch)).0.state
resolve_file_content_evidence-IsQuiet_example =
    resolve_file_content_evidence-IsQuiet fixed_hash options "web1" motd live_sourced (some fetch)
      source_same

abbrev plain_value : Value
plain_value = arr (cons (str "a") (cons (num "1") nil))

plain_value-plain : contains_rich plain_value ≡ false
unfolding contains_rich
plain_value-plain = refl

abbrev one_key : Value
one_key = obj (field "a" (num "1") end)

one_key-HasDistinctKeys : HasDistinctKeys one_key
unfolding HasDistinctKeys get
one_key-HasDistinctKeys = (refl, tt, tt)

deep_equal_refl_example : deep_equal one_key one_key ≡ true
deep_equal_refl_example = deep_equal_refl one_key one_key-HasDistinctKeys
