-- ===== src/Pipeline/Context.antt =====
-- internal/pipeline/contract.go, compress.go, infer.go and runtime_client.go: what a stage reads of the values that
-- it gets, and the check of a compressed context.
use Prim.Native.String.{◌++◌}
use mantlerd.Base.{
  Bool, true, false, ◌&&◌, ◌||◌, not, String, List, [], ◌∷◌, Option, none, some, str_eq, trim_space,
  trim_prefix, if◌then◌else◌,
}
use mantlerd.Pipeline.Value.{
  Value, null, boolean, number, text, array, object, Items, no_item, item, Members, no_member,
  member, find,
}

-- `value.(string)` with the empty text for another value, and for nil.
abbrev pub as_string : Option Value → String
as_string (some (text s)) = s
as_string _ = ""

unfoldable pub string_from_any : Option Value → String
string_from_any o = trim_space (as_string o)

abbrev pub is_blank : Option Value → Bool
is_blank o = str_eq (trim_space (as_string o)) ""

abbrev pub is_filled_text : Option Value → Bool
is_filled_text (some (text s)) = not (str_eq (trim_space s) "")
is_filled_text _ = false

abbrev pub is_array : Option Value → Bool
is_array (some (array vs)) = true
is_array _ = false

abbrev pub is_kind : String → Bool
is_kind kind = str_eq kind "code" || str_eq kind "url" || str_eq kind "file" || str_eq kind "data"

-- The entries of referencedArtifacts.
unfoldable pub are_artifacts : Items → Bool
are_artifacts no_item = true
are_artifacts (item (object entry) vs) =
    let rest = are_artifacts vs in
    is_kind (trim_space (as_string (find "kind" entry)))
    && not (is_blank (find "reference" entry))
    && not (is_blank (find "description" entry))
    && rest
are_artifacts (item _ vs) = false

abbrev pub has_artifacts : Option Value → Bool
has_artifacts (some (array vs)) = are_artifacts vs
has_artifacts _ = false

unfoldable pub are_calls : Items → Bool
are_calls no_item = true
are_calls (item (object entry) vs) =
    let rest = are_calls vs in
    not (is_blank (find "name" entry)) && not (is_blank (find "status" entry)) && rest
are_calls (item _ vs) = false

abbrev pub has_calls : Option Value → Bool
has_calls (some (array vs)) = are_calls vs
has_calls _ = false

-- A tool state that is missing or nil is not looked at.
abbrev pub is_tool_state : Option Value → Bool
is_tool_state none = true
is_tool_state (some null) = true
is_tool_state (some (object state)) =
    is_array (find "activeTools" state) && has_calls (find "pendingCalls" state)
is_tool_state (some _) = false

-- Whether ValidateCompressedContext returns nil; its error is always the same.
unfoldable pub is_compressed_context : Members → Bool
is_compressed_context input =
    is_filled_text (find "contractVersion" input)
    && str_eq (as_string (find "contractVersion" input)) "1"
    && is_filled_text (find "summary" input)
    && is_filled_text (find "latestUserIntent" input)
    && is_array (find "preservedFacts" input)
    && is_array (find "decisions" input)
    && has_artifacts (find "referencedArtifacts" input)
    && is_array (find "unresolvedQuestions" input)
    && is_tool_state (find "toolState" input)

-- A text of the input, of its tool state, or the default.
abbrev pub in_tool_state : String → String → Option Value → String
in_tool_state key default (some (object state)) =
    let s = string_from_any (find key state) in if str_eq s "" then default else s
in_tool_state key default _ = default

abbrev pub resolve_text : String → String → Members → String
resolve_text key default input =
    let s = string_from_any (find key input) in
    if str_eq s "" then in_tool_state key default (find "toolState" input) else s

unfoldable pub resolve_model_id : Members → String
resolve_model_id = resolve_text "model" "local-model"

unfoldable pub resolve_runtime_name : Members → String
resolve_runtime_name = resolve_text "runtime" "ollama"

-- strings.Join at a separator of several characters
unfoldable pub join_texts : String → List String → String
join_texts sep [] = ""
join_texts sep (p ∷ []) = p
join_texts sep (p ∷ q ∷ parts) = p ++ (sep ++ join_texts sep (q ∷ parts))

unfoldable pub filled_texts : Items → List String
filled_texts no_item = []
filled_texts (item v vs) =
    let rest = filled_texts vs in
    let s = string_from_any (some v) in if str_eq s "" then rest else s ∷ rest

abbrev pub labelled : String → List String → String
labelled label [] = label ++ ": none"
labelled label (p ∷ parts) = label ++ (": " ++ join_texts "; " (p ∷ parts))

unfoldable pub format_array_line : String → Option Value → String
format_array_line label (some (array vs)) = labelled label (filled_texts vs)
format_array_line label _ = labelled label []

abbrev pub artifact_line : Members → List String → List String
artifact_line artifact rest =
    let kind = string_from_any (find "kind" artifact) in
    let reference = string_from_any (find "reference" artifact) in
    let description = string_from_any (find "description" artifact) in
    if str_eq kind "" && str_eq reference "" && str_eq description ""
    then rest
    else ("[" ++ (kind ++ ("] " ++ (reference ++ (": " ++ description))))) ∷ rest

unfoldable pub artifact_lines : Items → List String
artifact_lines no_item = []
artifact_lines (item (object artifact) vs) = artifact_line artifact (artifact_lines vs)
artifact_lines (item _ vs) = artifact_lines vs

unfoldable pub format_artifacts_line : String → Option Value → String
format_artifacts_line label (some (array vs)) = labelled label (artifact_lines vs)
format_artifacts_line label _ = labelled label []

unfoldable pub build_infer_system_prompt : Members → String
build_infer_system_prompt input =
    let lines =
      format_array_line "Preserved facts" (find "preservedFacts" input)
      ∷ format_array_line "Decisions" (find "decisions" input)
      ∷ format_artifacts_line "Referenced artifacts" (find "referencedArtifacts" input)
      ∷ format_array_line "Unresolved questions" (find "unresolvedQuestions" input)
      ∷ [] in
    let summary = string_from_any (find "summary" input) in
    join_texts "\n" (
      "Use the provided compressed context to answer accurately."
      ∷ (if str_eq summary "" then lines else ("Summary: " ++ summary) ∷ lines))

unfoldable pub infer_latest_intent : Members → String
infer_latest_intent input =
    let latest = string_from_any (find "latestUserIntent" input) in
    if str_eq latest ""
    then "Respond to the latest request using the compressed context."
    else latest

-- strings.TrimSuffix(s, p), for a p that is not empty
unfoldable pub trim_suffix : String → String → String
trim_suffix String.[] p = ""
trim_suffix (String.◌∷◌ c s) p =
    let rest = String.◌∷◌ c (trim_suffix s p) in if str_eq (String.◌∷◌ c s) p then "" else rest

abbrev pub compression_prompt : String
compression_prompt =
    "You are a deterministic context compressor.\nReturn ONLY JSON that exactly matches:\n{\n  \"contractVersion\":\"1\",\n  \"summary\":\"...\",\n  \"preservedFacts\":[\"...\"],\n  \"decisions\":[\"...\"],\n  \"referencedArtifacts\":[{\"kind\":\"code|url|file|data\",\"reference\":\"...\",\"description\":\"...\"}],\n  \"unresolvedQuestions\":[\"...\"],\n  \"latestUserIntent\":\"...\",\n  \"toolState\":{\"activeTools\":[],\"pendingCalls\":[{\"name\":\"...\",\"status\":\"...\"}]}\n}"

abbrev pub message : String → String → Value
message role content =
    object (member "role" (text role) (member "content" (text content) no_member))

abbrev pub prompt_messages : String → Items
prompt_messages prompt =
    item
      (message "user"
        (if str_eq prompt "" then "Summarize the current request context." else prompt))
      no_item

-- The messages, if there are any, or one of the prompt.
unfoldable pub normalize_messages : Members → Items
normalize_messages input = elim (find "messages" input) [
  | some (array (item v vs)) ↦ item v vs
  | _ ↦ prompt_messages (string_from_any (find "prompt" input))
]

unfoldable pub compress_request : Members → Value
compress_request input = object (
    member "model" (text (resolve_model_id input)) (
      member "messages"
        (array (item (message "system" compression_prompt) (normalize_messages input)))
        (member "stream" (boolean false) (member "temperature" (number "0") no_member))))

abbrev pub text_of_part : Members → String
text_of_part part =
    let s = string_from_any (find "text" part) in
    if str_eq s "" then string_from_any (find "content" part) else s

unfoldable pub content_text_from_part : Value → String
content_text_from_part (object part) = text_of_part part
content_text_from_part v = string_from_any (some v)

unfoldable pub part_texts : Items → List String
part_texts no_item = []
part_texts (item v vs) =
    let rest = part_texts vs in
    let s = content_text_from_part v in if str_eq s "" then rest else s ∷ rest

abbrev pub content_of : Option Value → String
content_of (some (array vs)) = trim_space (join_texts "\n" (part_texts vs))
content_of o = string_from_any o

abbrev pub message_content : Option Value → String
message_content (some (object fields)) = content_of (find "content" fields)
message_content _ = ""

abbrev pub choice_content : Option Value → String
choice_content (some (array (item (object choice) vs))) = message_content (find "message" choice)
choice_content _ = ""

unfoldable pub first_choice_content : Members → String
first_choice_content response = choice_content (find "choices" response)

-- What is left of a text in Markdown's fence.
unfoldable pub json_block : String → String
json_block value =
    trim_space (trim_suffix (trim_prefix (trim_prefix (trim_space value) "```json") "```") "```")

abbrev pub empty_tool_state : Value
empty_tool_state =
    object (member "activeTools" (array no_item) (member "pendingCalls" (array no_item) no_member))

unfoldable pub set_member : String → Value → Members → Members
set_member k v no_member = member k v no_member
set_member k v (member j w ms) =
    let rest = member j w (set_member k v ms) in if str_eq j k then member k v ms else rest

abbrev pub with_tool_state : Option Value → Members → Members
with_tool_state none decoded = set_member "toolState" empty_tool_state decoded
with_tool_state (some null) decoded = set_member "toolState" empty_tool_state decoded
with_tool_state (some v) decoded = decoded

abbrev pub decoded_context : Option Members → Option Members
decoded_context none = none
decoded_context (some decoded) = some (with_tool_state (find "toolState" decoded) decoded)

-- The context in the runtime's answer; json.Unmarshal is the first argument.
unfoldable pub compress_answer : (String → Option Members) → Members → Option Members
compress_answer decode response =
    let content = first_choice_content response in
    if str_eq (trim_space content) "" then none else decoded_context (decode (json_block content))
