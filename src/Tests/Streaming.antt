-- ===== src/Tests/Streaming.antt =====
-- Two calls whose fragments are interleaved, between two pieces of text.
use proofcoder.Base.{arith, String, ◌≡◌, refl, All, true, none, some, List, [], ◌∷◌}
use proofcoder.Base.Int.{ℤ, pos, negsuc}
use proofcoder.Base.Result.{Result, ok, ◌>>=◌}
use proofcoder.Base.Text.{text_length}
use proofcoder.Protocol.{TokenUsage, AssistantMessage}
use proofcoder.Streaming.{
  StreamAssembler, StreamError, new_assembler, Piece, text_piece, finish_piece, call_piece, feed,
  add_piece, add_text, set_finish_reason, add_tool_call_fragment, extend, find, put, changes,
  first_of, join, or_none, build_calls, build_call, call_of, checked_arguments, finish,
}
use proofcoder.Streaming.Reference.{reference, given_text, all_given}
use proofcoder.Streaming.Response.{told}
use proofcoder.Streaming.Cut.{Cut, IsSendable, pieces_of}
use proofcoder.Streaming.Roundtrip.{finish-feed}
use proofcoder.Streaming.Finished.{IsReady, finish-reference}
use proofcoder.Tests.History.{loads}

abbrev show_int : ℤ → String
show_int (pos n) = "0"
show_int (negsuc n) = "-1"

abbrev pieces : List Piece
pieces =
    text_piece "I will "
    ∷ call_piece (pos 0) (some "call_a") (some "read_file") (some "{\"path\":")
    ∷ call_piece (pos 1) none (some "list_files") none
    ∷ call_piece (pos 0) none none (some "\"a.py\"}")
    ∷ text_piece "look"
    ∷ finish_piece (some "stop")
    ∷ []

abbrev response : AssistantMessage
response = record {
  content = some "I will look";
  reasoning_content = none;
  finish_reason = some "tool_calls";
  usage = none;
  tool_calls =
      record {
        id = "call_a";
        function = record { name = "read_file"; arguments = "{\"path\":\"a.py\"}" };
        type = "function";
      }
      ∷ record {
        id = "stream-tool-0";
        function = record { name = "list_files"; arguments = "{}" };
        type = "function";
      }
      ∷ [];
}

abbrev filled : StreamAssembler
filled = record {
  text = "I will " ∷ "look" ∷ [];
  reasoning = [];
  text_length = 11;
  finish_reason = some "stop";
  usage = none;
  calls =
      (pos 0, record { call_id = "call_a"; name = "read_file"; arguments = "{\"path\":\"a.py\"}" })
      ∷ (pos 1, record { call_id = ""; name = "list_files"; arguments = "" })
      ∷ [];
  order = pos 0 ∷ pos 1 ∷ [];
  saw_fragment = true;
  reported = "I will " ∷ "look" ∷ [];
}

-- The line opens what an assembler computes with.
fed : Result StreamError StreamAssembler
unfolding feed add_piece add_text set_finish_reason add_tool_call_fragment extend find put changes
    first_of text_length join or_none build_calls build_call call_of checked_arguments finish
fed = feed true pieces new_assembler

fed_all : fed ≡ ok filled
unfolding fed
fed_all = refl

finished : finish loads show_int filled ≡ ok response
unfolding fed
finished = refl

finish-reference_example :
    (response ≡ reference show_int pieces)
    × All (IsReady loads show_int) response.tool_calls
    × (join filled.reported ≡ told true (all_given given_text pieces))
unfolding fed
finish-reference_example =
    finish-reference loads show_int true pieces {a = filled} {m = response} refl refl

-- One call, whose arguments come in two fragments.
abbrev sent : Cut
sent = record {
  call = record {
    id = "call_a";
    function = record { name = "read_file"; arguments = "{\"path\":\"a.py\"}" };
    type = "function";
  };
  first = "{\"path\":";
  more = "\"a.py\"}" ∷ [];
}

abbrev tokens : TokenUsage
tokens = record { prompt_tokens = none; completion_tokens = none; total_tokens = none }

sent-IsSendable : IsSendable loads sent
unfolding text_length join
sent-IsSendable = record {
  has_id = refl;
  has_name = refl;
  has_arguments = refl;
  whole = refl;
  short = ground arith;
  is_function = refl;
  fields = _;
  loaded = refl;
}

finish-feed_example :
    (feed true
        (pieces_of "wh" ("y" ∷ []) ("I will " ∷ "look" ∷ []) (sent ∷ []) "stop" tokens)
        new_assembler
      >>= finish loads show_int)
    ≡ ok (record {
      content = some "I will look";
      reasoning_content = some "why";
      finish_reason = some "tool_calls";
      usage = some tokens;
      tool_calls = sent.call ∷ [];
    })
unfolding text_length join or_none
finish-feed_example =
    finish-feed true loads show_int "wh" ("y" ∷ []) ("I will " ∷ "look" ∷ []) (sent ∷ []) "stop"
      tokens refl (refl, tt) (refl, (refl, tt)) refl (ground arith) (sent-IsSendable, tt)
      (ground arith)
