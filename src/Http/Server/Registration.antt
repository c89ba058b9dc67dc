-- ===== src/Http/Server/Registration.antt =====
-- HttpServer.h: the routes and the middlewares that a program gives the server.
use http.Prelude.{Option}
use http.Std.Text.{Text}
use http.Http.Request.{Method}
use http.Router.{
  Router, Handler, register_handler, register_callback, add_regex_handler, add_regex_callback,
}
use http.Middleware.{Middleware, MiddlewareChain, add_middleware}

-- The fields that a plain server consults.
pub record HttpServer (Regex W : Type 0) : Type 0 where
  pub router : Router Regex W
  pub middleware_chain : MiddlewareChain W

module _ {Regex W : Type 0} where
  -- Get and Post, with a callback and with a handler
  unfoldable pub get_callback : Text → Handler W → HttpServer Regex W → HttpServer Regex W
  get_callback path cb s = record s { router = register_callback Method.get path cb s.router }

  unfoldable pub get_handler : Text → Handler W → HttpServer Regex W → HttpServer Regex W
  get_handler path h s = record s { router = register_handler Method.get path h s.router }

  unfoldable pub post_callback : Text → Handler W → HttpServer Regex W → HttpServer Regex W
  post_callback path cb s = record s { router = register_callback Method.post path cb s.router }

  unfoldable pub post_handler : Text → Handler W → HttpServer Regex W → HttpServer Regex W
  post_handler path h s = record s { router = register_handler Method.post path h s.router }

  -- addMiddleware
  unfoldable pub use_middleware : Option (Middleware W) → HttpServer Regex W → HttpServer Regex W
  use_middleware m s = record s { middleware_chain = add_middleware m s.middleware_chain }

module _ {Regex W : Type 0} (compile : Text → Regex) where
  -- addRoute
  unfoldable pub add_route_handler :
      Method → Text → Handler W → HttpServer Regex W → HttpServer Regex W
  add_route_handler m path h s = record s { router = add_regex_handler compile m path h s.router }

  unfoldable pub add_route_callback :
      Method → Text → Handler W → HttpServer Regex W → HttpServer Regex W
  add_route_callback m path cb s = record s {
    router = add_regex_callback compile m path cb s.router;
  }
