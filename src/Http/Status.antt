-- ===== src/Http/Status.antt =====
-- The statuses of spike/net/http/Http.h and `HttpStatusToString` (spike/net/http/Http.cpp). A
-- status is its number: the enumeration is a number that other values are cast to.
use lim_webserver.Base.{ℕ, List, [], ◌∷◌, ◌==◌, if◌then◌else◌, codes}

-- `HTTP_STATUS_MAP`, with the text that `#msg` makes of its third column
abbrev pub http_status_map : List (ℕ × List ℕ)
http_status_map =
    (100, codes "Continue")
    ∷ (101, codes "Switching Protocols")
    ∷ (102, codes "Processing")
    ∷ (200, codes "OK")
    ∷ (201, codes "Created")
    ∷ (202, codes "Accepted")
    ∷ (203, codes "Non - Authoritative Information")
    ∷ (204, codes "No Content")
    ∷ (205, codes "Reset Content")
    ∷ (206, codes "Partial Content")
    ∷ (207, codes "Multi - Status")
    ∷ (208, codes "Already Reported")
    ∷ (226, codes "IM Used")
    ∷ (300, codes "Multiple Choices")
    ∷ (301, codes "Moved Permanently")
    ∷ (302, codes "Found")
    ∷ (303, codes "See Other")
    ∷ (304, codes "Not Modified")
    ∷ (305, codes "Use Proxy")
    ∷ (307, codes "Temporary Redirect")
    ∷ (308, codes "Permanent Redirect")
    ∷ (400, codes "Bad Request")
    ∷ (401, codes "Unauthorized")
    ∷ (402, codes "Payment Required")
    ∷ (403, codes "Forbidden")
    ∷ (404, codes "Not Found")
    ∷ (405, codes "Method Not Allowed")
    ∷ (406, codes "Not Acceptable")
    ∷ (407, codes "Proxy Authentication Required")
    ∷ (408, codes "Request Timeout")
    ∷ (409, codes "Conflict")
    ∷ (410, codes "Gone")
    ∷ (411, codes "Length Required")
    ∷ (412, codes "Precondition Failed")
    ∷ (413, codes "Payload Too Large")
    ∷ (414, codes "URI Too Long")
    ∷ (415, codes "Unsupported Media Type")
    ∷ (416, codes "Range Not Satisfiable")
    ∷ (417, codes "Expectation Failed")
    ∷ (421, codes "Misdirected Request")
    ∷ (422, codes "Unprocessable Entity")
    ∷ (423, codes "Locked")
    ∷ (424, codes "Failed Dependency")
    ∷ (426, codes "Upgrade Required")
    ∷ (428, codes "Precondition Required")
    ∷ (429, codes "Too Many Requests")
    ∷ (431, codes "Request Header Fields Too Large")
    ∷ (451, codes "Unavailable For Legal Reasons")
    ∷ (500, codes "Internal Server Error")
    ∷ (501, codes "Not Implemented")
    ∷ (502, codes "Bad Gateway")
    ∷ (503, codes "Service Unavailable")
    ∷ (504, codes "Gateway Timeout")
    ∷ (505, codes "HTTP Version Not Supported")
    ∷ (506, codes "Variant Also Negotiates")
    ∷ (507, codes "Insufficient Storage")
    ∷ (508, codes "Loop Detected")
    ∷ (510, codes "Not Extended")
    ∷ (511, codes "Network Authentication Required")
    ∷ []

-- The `switch`: the text of the case that a status has.
pub case_of : ℕ → List (ℕ × List ℕ) → List ℕ
case_of s [] = codes "<unknown>"
case_of s ((code, msg) ∷ rest) = let later = case_of s rest in if s == code then msg else later

pub http_status_to_string : ℕ → List ℕ
http_status_to_string s = case_of s http_status_map
