-- ===== src/Objects.antt =====
-- objects/HttpRequest.h, HttpRequest.cpp, HttpResponse.h, HttpResponse.cpp and
-- HttpRequestToResponse.h: the values that the workers handle. A body is its bytes.
use c11http.Common.{ℕ, List, []}

pub data Method : Type 0 where
  get_method post put delete : Method

pub record HttpRequest : Type 0 where
  pub req_method : Method
  pub body : List ℕ

pub record HttpResponse : Type 0 where
  pub body : List ℕ

-- The constructors' default arguments.
abbrev pub default_request : HttpRequest
default_request = record { req_method = get_method; body = [] }

abbrev pub default_response : HttpResponse
default_response = record { body = [] }

abbrev pub HttpRequestToResponse : Type 0
HttpRequestToResponse = HttpRequest → HttpResponse
