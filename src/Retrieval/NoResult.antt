-- ===== src/Retrieval/NoResult.antt =====
-- backend/app/retrieval/no_result.py: the message for a question without an answer.
use Prim.Native.String.{◌++◌}
use know_gate.Prelude.{ℕ, String, List, str_eq, if◌then◌else◌}

pub data NoResultReason : Type 0 where
  no_results all_denied empty_query : NoResultReason

pub record NoResultResponse : Type 0 where
  pub reason : NoResultReason
  pub message : String
  pub suggestions : List String
  pub denied_count : ℕ

-- The texts of `_DEFAULT_MESSAGES`, with the text of the number for `{n}`.
abbrev pub message_vi : NoResultReason → String → String
message_vi no_results n = "Tôi không tìm thấy thông tin phù hợp trong các tài liệu hiện có."
message_vi all_denied n = "Có " ++ n ++ " kết quả liên quan, nhưng bạn không có quyền truy cập."
message_vi empty_query n = "Vui lòng nhập câu hỏi của bạn."

abbrev pub message_en : NoResultReason → String → String
message_en no_results n = "I could not find relevant information in the available sources."
message_en all_denied n =
    "There are " ++ n ++ " related results, but you don't have permission to view them."
message_en empty_query n = "Please enter your question."

abbrev pub message_zh : NoResultReason → String → String
message_zh no_results n = "在当前文档中未找到相关信息。"
message_zh all_denied n = "有 " ++ n ++ " 条相关结果，但您没有访问权限。"
message_zh empty_query n = "请输入您的问题。"

-- `show` is `str` of a number.
unfoldable pub build_no_result_message :
    (ℕ → String) → NoResultReason → String → ℕ → List String → NoResultResponse
build_no_result_message show reason language denied_count suggestions = record {
  reason = reason;
  message =
      if str_eq language "vi"
      then message_vi reason (show denied_count)
      else if str_eq language "zh"
      then message_zh reason (show denied_count)
      else message_en reason (show denied_count);
  suggestions = suggestions;
  denied_count = denied_count;
}
