-- ===== src/Store/Effects/Http.antt =====
-- How the controllers turn the errors of the services into answers.
use shob_app.Store.Effects.{M, Exception, raise, try_catch}

-- `throw error instanceof HttpException ? error : new InternalServerErrorException(…)`
abbrev pub http_only : Exception → Exception
http_only (Exception.http status) = Exception.http status
http_only _ = Exception.http 500

abbrev pub as_http : {A : Type 0} → M A → M A
as_http m = try_catch m (λ e. raise (http_only e))
