-- ===== src/Astikit.antt =====
-- github.com/asticode/go-astikit, a package that the library calls: `BytesIterator`, which reads
-- bytes at an offset, and `BitsWriter`, which packs fields of any width into bytes. Neither is in
-- the repository. Both are parameters of the model: a record of operations, and a record of the
-- documented behaviour that the code relies on.
mod Iterator
mod Writer
pub mod Lists
pub use Iterator.{BytesIterator, IsBytesIterator}
pub use Writer.{BitsWriter, IsBitsWriter, Buffer, IsBuffer, emit, emit_loop}
